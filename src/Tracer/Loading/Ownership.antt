-- ===== src/Tracer/Loading/Ownership.antt =====
-- Starting and stopping the tracer leaves nothing behind (src/ebpf_tracer.c: ebpf_tracer_load,
-- ebpf_tracer_attach, ebpf_tracer_destroy; src/schedmon.c: init_ebpf).
use capstone_monitor.Prelude.{
  ℕ, ◌+◌, ◌≡◌, ◌∙◌, ap, sym, refl, List, Bool, true, false, ◌||◌, Option, none, some, arith,
  if◌then◌else◌, Bool-cases, inl, inr,
}
use capstone_monitor.Prelude.Bits.{bit, bit_opened, bit_injective}
use capstone_monitor.Tracer.{is_missing}
use capstone_monitor.Tracer.Loading.{
  Libbpf, Handle, is_null, attach_prog, maps_of, object_loaded, object_opened, ebpf_tracer_load,
  attach_optional, attach_required, attach_to, ebpf_tracer_attach, destroy_link,
  ebpf_tracer_destroy, load_done, init_ebpf, handle_sched_switch, handle_fork, handle_exit,
  handle_sched_wakeup, handle_block_rq_issue, handle_block_rq_complete, handle_exec,
}
use capstone_monitor.Tracer.Loading.Handles.{
  Thing, is_object, is_object-object, LibbpfLaws, at_object, at_link, links, Owned,
  attach_prog-at_link, destroy_link-at_link, object_close-is_object, close_object-at_object,
}

-- The tracer's things after a start; after a failed one there are none.
module _ (lib : Libbpf) where
  abbrev pub stop : Option Handle × lib.State → lib.State
  stop (none, s) = s
  stop (some et, s) = (ebpf_tracer_destroy lib et s).1

module _ (lib : Libbpf) (laws : LibbpfLaws lib) where
  open lib use {State}
  open laws use {is_live}

  -- A handle without links that accounts for what is alive.
  abbrev NoLinks : State → Handle → State → Type 0
  NoLinks s₀ et s = Owned lib laws s₀ et s × ((t : Thing) → links t et ≡ 0)

  -- The object of a handle that was not loaded.
  abbrev failed_object : Bool × Handle → Thing → ℕ
  failed_object (false, et) t = at_object et.obj t
  failed_object (true, et) t = 0

  -- What a load leaves: a handle without links, and without an object if it failed.
  abbrev Loads : State → Bool × Handle → State → Type 0
  Loads s₀ r s = NoLinks s₀ (r.1) s × ((t : Thing) → failed_object r t ≡ 0)

  object_loaded-Loads :
      (obj : ℕ) (s₀ s : State)
      → ((t : Thing) → bit (is_live s t) ≡ bit (is_live s₀ t) + bit (is_object obj t))
      → let (r, s') = object_loaded lib obj s in Loads s₀ r s'
  unfolding object_loaded
  object_loaded-Loads obj s₀ s h =
      let fds = maps_of lib obj s in
      elim (Bool-cases (is_missing fds.map_fd_switches || is_missing fds.map_fd_pids)) [
        | inl missing ↦ rw missing (
          (λ t. omega (arith, object_close-is_object lib laws obj s t _ (h t)), λ t. omega arith),
          λ t. refl,
        )
        | inr found ↦ rw found ((λ t. omega (arith, h t), λ t. omega arith), λ t. refl)
      ]

  object_opened-Loads :
      (o : Option ℕ) (s₀ s : State)
      → ((t : Thing) → bit (is_live s t) ≡ bit (is_live s₀ t) + at_object o t)
      → let (r, s') = object_opened lib o s in Loads s₀ r s'
  unfolding object_opened
  object_opened-Loads none s₀ s h = ((λ t. omega (arith, h t), λ t. omega arith), λ t. refl)
  object_opened-Loads (some obj) s₀ s h =
      let s' = (lib.object_load obj s).1 in
      let h' : (t : Thing) → bit (is_live s' t) ≡ bit (is_live s₀ t) + bit (is_object obj t) =
        λ t. ap bit (laws.load_keeps obj s t) ∙ h t in
      elim (Bool-cases ((lib.object_load obj s).0)) [
        | inl ok ↦ rw ok (object_loaded-Loads obj s₀ s' h')
        | inr failed ↦ rw failed (
          (λ t. omega (arith, object_close-is_object lib laws obj s' t _ (h' t)), λ t. omega arith),
          λ t. refl,
        )
      ]

  load-Loads :
      (path : List ℕ) (s : State) → let (r, s') = ebpf_tracer_load lib path s in Loads s r s'
  unfolding ebpf_tracer_load
  load-Loads path s = object_opened-Loads _ s _ (opened (lib.object_open path s) refl)
    where
      opened :
          (r : Option ℕ × State)
          → lib.object_open path s ≡ r
          → (t : Thing) → bit (is_live r.1 t) ≡ bit (is_live s t) + at_object r.0 t
      opened (none, s') e t = omega (arith, ap bit (laws.open_failure path s e t))
      opened (some o, s') e t =
          let (fresh, takes) = laws.open_takes path s e in
          bit_opened (is_live s t) (is_live s' t) (is_object o t) (takes t)
            (λ h. ap (is_live s) (sym (is_object-object o t h)) ∙ fresh)

  attach_optional-Owned :
      (obj : ℕ) (et : Handle) (s₀ s : State)
      → Owned lib laws s₀ et s
      → ((t : Thing)
          → at_link et.link_sched_wakeup t
              + at_link et.link_block_issue t
              + at_link et.link_block t
              + at_link et.link_exec t
            ≡ 0)
      → let (r, s') = attach_optional lib obj et s in Owned lib laws s₀ (r.1) s'
  unfolding attach_optional
  attach_optional-Owned obj et s₀ s o free t =
      let s₁ = (attach_prog lib obj handle_sched_wakeup s).1 in
      let s₂ = (attach_prog lib obj handle_block_rq_issue s₁).1 in
      let s₃ = (attach_prog lib obj handle_block_rq_complete s₂).1 in
      omega (
        arith,
        o t,
        free t,
        attach_prog-at_link lib laws obj handle_sched_wakeup s t,
        attach_prog-at_link lib laws obj handle_block_rq_issue s₁ t,
        attach_prog-at_link lib laws obj handle_block_rq_complete s₂ t,
        attach_prog-at_link lib laws obj handle_exec s₃ t,
      )

  attach_required-Owned :
      (obj : ℕ) (et : Handle) (s₀ s : State)
      → NoLinks s₀ et s
      → let (r, s') = attach_required lib obj et s in Owned lib laws s₀ (r.1) s'
  unfolding attach_required
  attach_required-Owned obj et s₀ s (o, free) =
      let switch = attach_prog lib obj handle_sched_switch s in
      let fork = attach_prog lib obj handle_fork switch.1 in
      let exit = attach_prog lib obj handle_exit fork.1 in
      let et' : Handle = record et {
        link_sched_switch = switch.0;
        link_fork = fork.0;
        link_exit = exit.0;
      } in
      let owned : Owned lib laws s₀ et' (exit.1) = λ t. omega (
        arith,
        o t,
        free t,
        attach_prog-at_link lib laws obj handle_sched_switch s t,
        attach_prog-at_link lib laws obj handle_fork switch.1 t,
        attach_prog-at_link lib laws obj handle_exit fork.1 t,
      ) in
      elim (Bool-cases (is_null switch.0 || is_null fork.0 || is_null exit.0)) [
        | inl failed ↦ rw failed owned
        | inr ok ↦
            rw ok (attach_optional-Owned obj et' s₀ (exit.1) owned (λ t. omega (arith, free t)))
      ]

  attach-Owned :
      (et : Handle) (s₀ s : State)
      → NoLinks s₀ et s
      → let (r, s') = ebpf_tracer_attach lib et s in Owned lib laws s₀ (r.1) s'
  unfolding ebpf_tracer_attach attach_to
  attach-Owned et s₀ s h = if_loaded et.loaded
    where
      to : (o : Option ℕ) → let (r, s') = attach_to lib o et s in Owned lib laws s₀ (r.1) s'
      to none = h.0
      to (some obj) = attach_required-Owned obj et s₀ s h

      if_loaded :
          (l : Bool)
          → let (r, s') = if l then attach_to lib et.obj et s else ((false, et), s) in
            Owned lib laws s₀ (r.1) s'
      if_loaded true = to et.obj
      if_loaded false = h.0

  destroy-Owned :
      (et : Handle) (s₀ s : State)
      → Owned lib laws s₀ et s
      → (t : Thing) → is_live (ebpf_tracer_destroy lib et s).1 t ≡ is_live s₀ t
  unfolding ebpf_tracer_destroy
  destroy-Owned et s₀ s o t =
      let s₁ = destroy_link lib et.link_sched_switch s in
      let s₂ = destroy_link lib et.link_sched_wakeup s₁ in
      let s₃ = destroy_link lib et.link_fork s₂ in
      let s₄ = destroy_link lib et.link_exit s₃ in
      let s₅ = destroy_link lib et.link_block_issue s₄ in
      let s₆ = destroy_link lib et.link_block s₅ in
      let s₇ = destroy_link lib et.link_exec s₆ in
      let c = bit (is_live s₀ t) + at_object et.obj t in
      let c₆ = c + at_link et.link_exec t in
      let c₅ = c₆ + at_link et.link_block t in
      let c₄ = c₅ + at_link et.link_block_issue t in
      let c₃ = c₄ + at_link et.link_exit t in
      let c₂ = c₃ + at_link et.link_fork t in
      let c₁ = c₂ + at_link et.link_sched_wakeup t in
      let e₁ = destroy_link-at_link lib laws et.link_sched_switch s t c₁ (omega (arith, o t)) in
      let e₂ = destroy_link-at_link lib laws et.link_sched_wakeup s₁ t c₂ e₁ in
      let e₃ = destroy_link-at_link lib laws et.link_fork s₂ t c₃ e₂ in
      let e₄ = destroy_link-at_link lib laws et.link_exit s₃ t c₄ e₃ in
      let e₅ = destroy_link-at_link lib laws et.link_block_issue s₄ t c₅ e₄ in
      let e₆ = destroy_link-at_link lib laws et.link_block s₅ t c₆ e₅ in
      let e₇ = destroy_link-at_link lib laws et.link_exec s₆ t c e₆ in
      bit_injective _ _ (close_object-at_object lib laws et.obj s₇ t (bit (is_live s₀ t)) e₇)

  load_done-stop :
      (r : Bool × Handle) (s₀ s : State)
      → Loads s₀ r s
      → (t : Thing) → is_live (stop lib (load_done lib r s)) t ≡ is_live s₀ t
  unfolding load_done
  load_done-stop (false, et) s₀ s ((o, free), nothing) t =
      bit_injective _ _ (omega (arith, o t, free t, nothing t))
  load_done-stop (true, et) s₀ s (h, nothing) t =
      let attached = ebpf_tracer_attach lib et s in
      let owned = attach-Owned et s₀ s h in
      elim (Bool-cases (attached.0.0)) [
        | inl ok ↦ rw ok (destroy-Owned (attached.0.1) s₀ (attached.1) owned t)
        | inr failed ↦ rw failed (destroy-Owned (attached.0.1) s₀ (attached.1) owned t)
      ]

  -- When init_ebpf fails, no object and no link of libbpf is alive that was not before, whichever step
  -- failed; when it succeeds, ebpf_tracer_destroy brings that about. It holds of a libbpf that hands
  -- out and ends what its documentation says.
  pub init_ebpf-destroy :
      (bpf_path : List ℕ) (s : State) (t : Thing)
      → is_live (stop lib (init_ebpf lib bpf_path s)) t ≡ is_live s t
  unfolding init_ebpf
  init_ebpf-destroy bpf_path s t =
      let (r, s') = ebpf_tracer_load lib bpf_path s in
      load_done-stop r s s' (load-Loads bpf_path s) t
