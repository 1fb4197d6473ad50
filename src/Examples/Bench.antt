-- ===== src/Examples/Bench.antt =====
-- The benchmark of the REST API at a server that answers every request.
use ebpf_upf.Prelude.{ℕ, ◌*◌, ◌≡◌, refl, List, [], ◌∷◌, codes, arith}
use ebpf_upf.Python.{ok, err, zero_division_error}
use ebpf_upf.Python.Exec.{Exec}
use ebpf_upf.Python.Struct.{Bytes}
use ebpf_upf.Bench.{pdr_body}
use ebpf_upf.Bench.Requests.{put_timed, bench}
use ebpf_upf.Bench.Ranks.{Benched, bench-Benched}

-- The server keeps the bodies of the requests, the last one first.
abbrev answer : Bytes → Bytes → Exec (List Bytes) Bytes
answer url body requests = (ok [], body ∷ requests)

-- Each reading of the clock is later than the one before by more.
abbrev squares : ℕ → ℕ
squares k = k * k

test_put_timed : (put_timed answer squares 3 0 20000 []).0 ≡ ok (3 ∷ 7 ∷ 11 ∷ [])
unfolding put_timed
test_put_timed = refl

test_pdr_body :
    pdr_body 20000 2 0
    ≡ codes "{\"id\": 20000, \"outer_header_removal\": 1, \"far_id\": 2, \"qer_id\": 0}"
unfolding pdr_body
test_pdr_body = refl

test_bench_nothing : (bench answer squares 0 20000 []).0 ≡ err zero_division_error
unfolding bench
test_bench_nothing = refl

bench-Benched_example :
    Benched answer squares 3
      (put_timed answer squares 3 0 20000 []).0
      (bench answer squares 3 20000 []).0
bench-Benched_example = bench-Benched answer squares 3 20000 [] (omega arith)
