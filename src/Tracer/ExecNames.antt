-- ===== src/Tracer/ExecNames.antt =====
-- The name that a process takes on by exec (src/ebpf_tracer.c: ebpf_tracer_pop_exec_comm).
use capstone_monitor.Prelude.{
  ℕ, zero, suc, ◌-◌, ◌≤◌, ◌<◌, ◌≡◌, ◌∙◌, ap, refl, sym, List, [], ◌∷◌, ◌++◌, true, false, Option,
  none, some, arith, tests, if◌then◌else◌, ◌==◌, ltb, leb, length, Absent, length-append,
  Bool-cases, Option-cases, ◌||◌, inl, inr,
}
use capstone_monitor.BpfMap.{BpfMaps, MapLaws}
use capstone_monitor.Bpf.{Maps, handle_exec}
use capstone_monitor.Tracer.{
  EbpfTracer, is_missing, copy_comm, pop_found, ebpf_tracer_pop_exec_comm,
}

ltb→ge : (a b : ℕ) → ltb a b ≡ false → b ≤ a
ltb→ge a b h = ground arith

length-copy : (n : ℕ) (cs : List ℕ) → length (copy_comm n cs) ≤ n
unfolding copy_comm
length-copy zero cs = omega arith
length-copy (suc n) [] = omega arith
length-copy (suc n) (c ∷ cs) = let rest = length-copy n cs in ground arith

-- A name without NUL that fits is copied whole, up to the NUL that ends it.
copy_name :
    (n : ℕ) (name rest : List ℕ)
    → Absent 0 name
    → length name ≤ n
    → copy_comm n (name ++ 0 ∷ rest) ≡ name
unfolding copy_comm
copy_name zero [] rest h l = refl
copy_name (suc n) [] rest h l = refl
copy_name zero (c ∷ cs) rest h l = absurd (omega arith)
copy_name (suc n) (c ∷ cs) rest h l =
    let e = copy_name n cs rest h.1 (omega arith) in
    let first : (c == 0) ≡ false = ground (arith, h.0) in rw first (ap (λ q. c ∷ q) e)

-- A buffer holds the bytes and their NUL.
fits :
    (len : ℕ) (cs : List ℕ)
    → 0 < len
    → length (copy_comm (if ltb (len - 1) 16 then len - 1 else 16) cs ++ 0 ∷ []) ≤ len
fits len cs h = elim (Bool-cases (ltb (len - 1) 16)) [
  | inl small ↦
      rw small
        (omega (arith, length-append (copy_comm (len - 1) cs) (0 ∷ []), length-copy (len - 1) cs))
  | inr large ↦ rw large (
      omega (
        tests,
        ltb→ge (len - 1) 16 large,
        length-append (copy_comm 16 cs) (0 ∷ []),
        length-copy 16 cs,
      ))
]

module _ (b : BpfMaps) (laws : MapLaws b) where
  abbrev Popped : Type 0
  Popped = Option (List ℕ) × Maps b

  pop_absent :
      (et : EbpfTracer) (p len : ℕ) (ms : Maps b)
      → b.lookup ms.exec_comms p ≡ none
      → ebpf_tracer_pop_exec_comm b et p len ms ≡ (none, ms)
  unfolding ebpf_tracer_pop_exec_comm pop_found
  pop_absent et p len ms h = rw h (ground arith)

  pop_present :
      (et : EbpfTracer) (p len : ℕ) (ms : Maps b) {comm : List ℕ}
      → is_missing et.map_fd_exec ≡ false
      → 0 < len
      → b.lookup ms.exec_comms p ≡ some comm
      → ebpf_tracer_pop_exec_comm b et p len ms ≡ pop_found b (some comm) p len ms
  unfolding ebpf_tracer_pop_exec_comm
  pop_present et p len ms found room h =
      let size : (len == 0) ≡ false = ground arith in rw (found, size, h) refl

  pop_refused :
      (et : EbpfTracer) (p len : ℕ) (ms : Maps b)
      → (is_missing et.map_fd_exec || len == 0) ≡ true
      → ebpf_tracer_pop_exec_comm b et p len ms ≡ (none, ms)
  unfolding ebpf_tracer_pop_exec_comm
  pop_refused et p len ms h = rw h refl

  pop_fits_found :
      (et : EbpfTracer) (p len : ℕ) (ms : Maps b) {comm written : List ℕ}
      → is_missing et.map_fd_exec ≡ false
      → 0 < len
      → b.lookup ms.exec_comms p ≡ some comm
      → (ebpf_tracer_pop_exec_comm b et p len ms).0 ≡ some written
      → (length written ≤ len)
        × ((ebpf_tracer_pop_exec_comm b et p len (ebpf_tracer_pop_exec_comm b et p len ms).1).0
            ≡ none)
  unfolding pop_found
  pop_fits_found et p len ms {comm} {written} found room present h =
      let e = pop_present et p len ms found room present in
      let bytes = sym (ap (λ (r : Popped). r.0) e) ∙ h in
      let ms' = record ms { exec_comms = b.delete ms.exec_comms p } in
      let gone : b.lookup ms'.exec_comms p ≡ none =
        ground (arith, laws.lookup-delete ms.exec_comms p p) in
      (
        ground (arith, fits len comm room),
        ap (λ (r : Popped). (ebpf_tracer_pop_exec_comm b et p len r.1).0) e
            ∙ ap (λ (r : Popped). r.0) (pop_absent et p len ms' gone),
      )

  -- When ebpf_tracer_pop_exec_comm returns 1, it has written no more than the `len` bytes of the
  -- caller's buffer, and the name is out of the map, so that the next call for the process returns 0.
  pub pop_fits :
      (et : EbpfTracer) (p len : ℕ) (ms : Maps b) {written : List ℕ}
      → (ebpf_tracer_pop_exec_comm b et p len ms).0 ≡ some written
      → (length written ≤ len)
        × ((ebpf_tracer_pop_exec_comm b et p len (ebpf_tracer_pop_exec_comm b et p len ms).1).0
            ≡ none)
  pop_fits et p len ms {written} h = elim (Bool-cases (is_missing et.map_fd_exec || len == 0)) [
    | inl refused ↦
        let e = ap (λ (r : Popped). r.0) (pop_refused et p len ms refused) in ground arith
    | inr passed ↦ elim (Option-cases (b.lookup ms.exec_comms p)) [
      | inl absent ↦
          let e = ap (λ (r : Popped). r.0) (pop_absent et p len ms absent) in ground arith
      | inr (comm, present) ↦ pop_fits_found et p len ms (ground arith) (ground arith) present h
    ]
  ]

  exec_stores :
      (p : ℕ) (comm : List ℕ) (ms : Maps b)
      → 1 < p
      → b.lookup (b.update ms.exec_comms p comm) p ≡ some comm
      → b.lookup (handle_exec b p comm ms).exec_comms p ≡ some comm
  unfolding handle_exec
  exec_stores p comm ms user room = let user : leb p 1 ≡ false = ground arith in rw user room

  -- A process other than the first two executes a program, and the map of names takes an entry for the
  -- process. Its new name ends in NUL, as the kernel's names do. Then, after the exec handler,
  -- ebpf_tracer_pop_exec_comm gives exactly that name if the buffer has room for it.
  pub exec_name_is_popped :
      (et : EbpfTracer) (p len : ℕ) (name rest : List ℕ) (ms : Maps b)
      → is_missing et.map_fd_exec ≡ false
      → 1 < p
      → Absent 0 name
      → length name < 16
      → length name < len
      → b.lookup (b.update ms.exec_comms p (name ++ 0 ∷ rest)) p ≡ some (name ++ 0 ∷ rest)
      → (ebpf_tracer_pop_exec_comm b et p len (handle_exec b p (name ++ 0 ∷ rest) ms)).0
        ≡ some (name ++ 0 ∷ [])
  unfolding pop_found
  exec_name_is_popped et p len name rest ms found user clean short fit room =
      let n = if ltb (len - 1) 16 then len - 1 else 16 in
      let enough : length name ≤ n = ground arith in
      let put = exec_stores p (name ++ 0 ∷ rest) ms user room in
      ap (λ (r : Popped). r.0) (pop_present et p len _ found (omega arith) put)
      ∙ ap (λ q. some (q ++ 0 ∷ [])) (copy_name n name rest clean enough)
