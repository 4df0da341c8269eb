-- ===== src/Tracer/Loading/Tests.antt =====
-- The start of the tracer over a small libbpf.
use capstone_monitor.Prelude.{◌≡◌, [], ◌∷◌, true}
use capstone_monitor.Tracer.Loading.{init_ebpf}
use capstone_monitor.Tracer.Loading.Handles.{link}
use capstone_monitor.Tracer.Loading.Ownership.{stop, init_ebpf-destroy}
use capstone_monitor.Tracer.Loading.Small.{small_libbpf, small_libbpf_laws, live}

-- The third program cannot be attached: the two links and the object go.
init_ebpf-destroy_example :
    live (stop (small_libbpf 2) (init_ebpf (small_libbpf 2) (b'x' ∷ []) (true ∷ [], []))) (link 1)
    ≡ live (true ∷ [], []) (link 1)
init_ebpf-destroy_example =
    init_ebpf-destroy (small_libbpf 2) (small_libbpf_laws 2) (b'x' ∷ []) (true ∷ [], []) (link 1)
