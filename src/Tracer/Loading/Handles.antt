-- ===== src/Tracer/Loading/Handles.antt =====
-- Every object and link of libbpf that the tracer takes is given back (src/ebpf_tracer.c:
-- ebpf_tracer_load, ebpf_tracer_attach, ebpf_tracer_destroy; src/schedmon.c: init_ebpf).
use capstone_monitor.Prelude.{
  ℕ, ◌+◌, ◌≡◌, ◌∙◌, ap, sym, refl, List, Bool, true, false, Option, none, some, arith,
  if◌then◌else◌, ◌==◌, ==_iff,
}
use capstone_monitor.Prelude.Bits.{bit, bit_opened, bit_closed}
use capstone_monitor.Tracer.Loading.{
  ProgName, Libbpf, Handle, found_prog, attach_prog, destroy_link, close_object,
}

-- What libbpf hands out.
pub data Thing : Type 0 where
  object link : ℕ → Thing

abbrev pub is_object : ℕ → Thing → Bool
is_object n (object m) = n == m
is_object n (link m) = false

abbrev pub is_link : ℕ → Thing → Bool
is_link n (object m) = false
is_link n (link m) = n == m

pub is_object-object : (n : ℕ) (t : Thing) → is_object n t ≡ true → object n ≡ t
is_object-object n (object m) h = ap object ((==_iff n m).0 h)
is_object-object n (link m) h = absurd (ground arith)

is_link-link : (n : ℕ) (t : Thing) → is_link n t ≡ true → link n ≡ t
is_link-link n (object m) h = absurd (ground arith)
is_link-link n (link m) h = ap link ((==_iff n m).0 h)

-- What the calls do to the things that are alive: opening and attaching make one that was not, closing
-- and destroying end the one that they are given.
pub record LibbpfLaws (lib : Libbpf) : Type 0 where
  pub is_live : lib.State → Thing → Bool
  pub open_takes :
      (path : List ℕ) (s : lib.State) {o : ℕ} {s' : lib.State}
      → lib.object_open path s ≡ (some o, s')
      → (is_live s (object o) ≡ false)
        × ((t : Thing) → is_live s' t ≡ (if is_object o t then true else is_live s t))
  pub open_failure :
      (path : List ℕ) (s : lib.State) {s' : lib.State}
      → lib.object_open path s ≡ (none, s')
      → (t : Thing) → is_live s' t ≡ is_live s t
  pub load_keeps :
      (o : ℕ) (s : lib.State) (t : Thing) → is_live (lib.object_load o s).1 t ≡ is_live s t
  pub close_ends :
      (o : ℕ) (s : lib.State) (t : Thing)
      → is_live (lib.object_close o s) t ≡ (if is_object o t then false else is_live s t)
  pub attach_takes :
      (prog : ℕ) (s : lib.State) {l : ℕ} {s' : lib.State}
      → lib.program_attach prog s ≡ (some l, s')
      → (is_live s (link l) ≡ false)
        × ((t : Thing) → is_live s' t ≡ (if is_link l t then true else is_live s t))
  pub attach_failure :
      (prog : ℕ) (s : lib.State) {s' : lib.State}
      → lib.program_attach prog s ≡ (none, s')
      → (t : Thing) → is_live s' t ≡ is_live s t
  pub destroy_ends :
      (l : ℕ) (s : lib.State) (t : Thing)
      → is_live (lib.link_destroy l s) t ≡ (if is_link l t then false else is_live s t)

abbrev pub at_object : Option ℕ → Thing → ℕ
at_object none t = 0
at_object (some n) t = bit (is_object n t)

abbrev pub at_link : Option ℕ → Thing → ℕ
at_link none t = 0
at_link (some n) t = bit (is_link n t)

abbrev pub links : Thing → Handle → ℕ
links t et =
    at_link et.link_sched_switch t
    + at_link et.link_sched_wakeup t
    + at_link et.link_fork t
    + at_link et.link_exit t
    + at_link et.link_block_issue t
    + at_link et.link_block t
    + at_link et.link_exec t

module _ (lib : Libbpf) (laws : LibbpfLaws lib) where
  open lib use {State}
  open laws use {is_live}

  -- Beside what was alive in `s₀`, exactly what the handle holds is alive in `s`.
  abbrev pub Owned : State → Handle → State → Type 0
  Owned s₀ et s =
      (t : Thing) → bit (is_live s t) ≡ bit (is_live s₀ t) + at_object et.obj t + links t et

  pub attach_prog-at_link :
      (obj : ℕ) (name : ProgName) (s : State) (t : Thing)
      → let (l, s') = attach_prog lib obj name s in
        bit (is_live s' t) ≡ bit (is_live s t) + at_link l t
  unfolding attach_prog found_prog
  attach_prog-at_link obj name s t = found (lib.find_program_by_name obj name s)
    where
      attached :
          (prog : ℕ) (r : Option ℕ × State)
          → lib.program_attach prog s ≡ r
          → bit (is_live r.1 t) ≡ bit (is_live s t) + at_link r.0 t
      attached prog (none, s') e = omega (arith, ap bit (laws.attach_failure prog s e t))
      attached prog (some l, s') e =
          let (fresh, takes) = laws.attach_takes prog s e in
          bit_opened (is_live s t) (is_live s' t) (is_link l t) (takes t)
            (λ h. ap (is_live s) (sym (is_link-link l t h)) ∙ fresh)

      found :
          (o : Option ℕ)
          → let (l, s') = found_prog lib o s in bit (is_live s' t) ≡ bit (is_live s t) + at_link l t
      found none = omega arith
      found (some prog) = attached prog (lib.program_attach prog s) refl

  pub destroy_link-at_link :
      (l : Option ℕ) (s : State) (t : Thing) (c : ℕ)
      → bit (is_live s t) ≡ c + at_link l t
      → bit (is_live (destroy_link lib l s) t) ≡ c
  unfolding destroy_link
  destroy_link-at_link none s t c h = omega (arith, h)
  destroy_link-at_link (some l) s t c h =
      bit_closed (is_live s t) (is_live (lib.link_destroy l s) t) (is_link l t) c
        (laws.destroy_ends l s t) h

  pub object_close-is_object :
      (o : ℕ) (s : State) (t : Thing) (c : ℕ)
      → bit (is_live s t) ≡ c + bit (is_object o t)
      → bit (is_live (lib.object_close o s) t) ≡ c
  object_close-is_object o s t c h =
      bit_closed (is_live s t) (is_live (lib.object_close o s) t) (is_object o t) c
        (laws.close_ends o s t) h

  pub close_object-at_object :
      (o : Option ℕ) (s : State) (t : Thing) (c : ℕ)
      → bit (is_live s t) ≡ c + at_object o t
      → bit (is_live (close_object lib o s) t) ≡ c
  unfolding close_object
  close_object-at_object none s t c h = omega (arith, h)
  close_object-at_object (some o) s t c h = object_close-is_object o s t c h
