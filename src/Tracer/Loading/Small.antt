-- ===== src/Tracer/Loading/Small.antt =====
-- A small libbpf, a value of the parameter, which meets its laws.
use capstone_monitor.Prelude.{
  ℕ, ◌≡◌, ◌∙◌, ap, sym, refl, List, [], ◌∷◌, ◌++◌, Bool, true, false, Option, none, some, arith,
  if◌then◌else◌, ltb, length,
}
use capstone_monitor.Prelude.Int.{pos}
use capstone_monitor.Perf.Small.{
  table_open, table_close, table_open_fresh, table_open-append, table_open-close,
}
use capstone_monitor.Tracer.Loading.{Libbpf}
use capstone_monitor.Tracer.Loading.Handles.{Thing, object, link, is_object, is_link, LibbpfLaws}

-- Which objects are open, and which links are attached.
abbrev pub Tables : Type 0
Tables = List Bool × List Bool

abbrev pub attach_link : (limit : ℕ) → Tables → Option ℕ × Tables
attach_link limit s =
    if ltb (length s.1) limit then (some (length s.1), (s.0, s.1 ++ true ∷ [])) else (none, s)

-- Every map and program is found, but only `limit` programs can be attached.
abbrev pub small_libbpf : (limit : ℕ) → Libbpf
small_libbpf limit = record {
  State = Tables;
  object_open = λ path s. (some (length s.0), (s.0 ++ true ∷ [], s.1));
  object_load = λ obj s. (true, s);
  object_close = λ obj s. (table_close obj s.0, s.1);
  find_map_by_name = λ obj name s. some 5;
  map_fd = λ map s. pos 5;
  find_program_by_name = λ obj name s. some 7;
  program_attach = λ prog s. attach_link limit s;
  link_destroy = λ l s. (s.0, table_close l s.1);
}

abbrev pub live : Tables → Thing → Bool
live s (object n) = table_open s.0 n
live s (link n) = table_open s.1 n

pub open_lem :
    (s : Tables) (t : Thing)
    → live (s.0 ++ true ∷ [], s.1) t ≡ (if is_object (length s.0) t then true else live s t)
open_lem s (object n) = table_open-append s.0 n
open_lem s (link n) = refl

pub attach_lem :
    (s : Tables) (t : Thing)
    → live (s.0, s.1 ++ true ∷ []) t ≡ (if is_link (length s.1) t then true else live s t)
attach_lem s (object n) = refl
attach_lem s (link n) = table_open-append s.1 n

pub close_lem :
    (o : ℕ) (s : Tables) (t : Thing)
    → live (table_close o s.0, s.1) t ≡ (if is_object o t then false else live s t)
close_lem o s (object n) = table_open-close o s.0 n
close_lem o s (link n) = refl

pub destroy_lem :
    (l : ℕ) (s : Tables) (t : Thing)
    → live (s.0, table_close l s.1) t ≡ (if is_link l t then false else live s t)
destroy_lem l s (object n) = refl
destroy_lem l s (link n) = table_open-close l s.1 n

pub pair_same :
    (n o : ℕ) (s s' : Tables)
    → ◌≡◌ {A = Option ℕ × Tables} (some n, s) (some o, s')
    → (n ≡ o) × (s ≡ s')
pair_same n o s s' e = (cc, cc)

pub never_none : (n : ℕ) (s s' : Tables) → ¬ (◌≡◌ {A = Option ℕ × Tables} (some n, s) (none, s'))
never_none n s s' e = ground arith

pub attach_some :
    (limit : ℕ) (s : Tables) {l : ℕ} {s' : Tables}
    → attach_link limit s ≡ (some l, s')
    → (length s.1 ≡ l) × (◌≡◌ {A = Tables} (s.0, s.1 ++ true ∷ []) s')
attach_some limit s e = ground arith

pub attach_none : (limit : ℕ) (s : Tables) {s' : Tables} → attach_link limit s ≡ (none, s') → s ≡ s'
attach_none limit s e = ground arith

abbrev pub small_libbpf_laws : (limit : ℕ) → LibbpfLaws (small_libbpf limit)
small_libbpf_laws limit = record {
  is_live = live;
  open_takes = λ path s e.
      let (n, same) = pair_same _ _ _ _ e in
      (
        ap (λ q. table_open s.0 q) (sym n) ∙ table_open_fresh s.0,
        λ t.
            ap (λ q. live q t) (sym same)
            ∙ open_lem s t
            ∙ ap (λ q. if is_object q t then true else live s t) n,
      );
  open_failure = λ path s e t. absurd (never_none _ _ _ e);
  load_keeps = λ o s t. refl;
  close_ends = close_lem;
  attach_takes = λ prog s e.
      let (n, same) = attach_some limit s e in
      (
        ap (λ q. table_open s.1 q) (sym n) ∙ table_open_fresh s.1,
        λ t.
            ap (λ q. live q t) (sym same)
            ∙ attach_lem s t
            ∙ ap (λ q. if is_link q t then true else live s t) n,
      );
  attach_failure = λ prog s e t. ap (λ q. live q t) (sym (attach_none limit s e));
  destroy_ends = destroy_lem;
}
