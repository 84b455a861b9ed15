-- ===== src/Tests/Queries.antt =====
-- The DNS queries of the Fingerprinting tools.
use Prim.Native.String.{String}
use Prim.Native.Char.{code}
use c_network_tools.Base.{
  ℕ, ◌≡◌, refl, List, [], ◌∷◌, ◌++◌, some, none, arith, little, net16, take, drop, replicate, pos,
}
use c_network_tools.Dns.Name.{labels, Proper, read_name}
use c_network_tools.Dns.HexDump.{dump, undump, undump-dump}
use c_network_tools.Dns.Dnsenum
use c_network_tools.Dns.Dnsenum.Query.{
  datagram, build_query-datagram, main-printed, build_query_understood,
}
use c_network_tools.Dns.Dig
use c_network_tools.Dns.Dig.Query.{IsShifted, build_query-SameDots, build_query-IsShifted}
use c_network_tools.Dns.Axfr
use c_network_tools.Dns.Axfr.Laws.{overwritten, shown, receive-AreFull, axfr_query-overwritten}

abbrev codes : String → List ℕ
codes String.[] = []
codes (String.◌∷◌ c s) = code c ∷ codes s

abbrev host : List ℕ
host = codes "ab.c"

host-labels : labels host ≡ codes "ab" ∷ codes "c" ∷ []
unfolding labels
host-labels = refl

host-Proper : Proper (labels host)
unfolding labels
host-Proper = omega arith

undump-dump_example : undump (dump 0 (0x0f ∷ 0xa0 ∷ [])) ≡ 0x0f ∷ 0xa0 ∷ []
undump-dump_example = undump-dump 0 (0x0f ∷ 0xa0 ∷ []) (omega arith)

dump_runs : dump 0 (0x0f ∷ 0xa0 ∷ []) ≡ codes "0f a0 " ++ 10 ∷ []
unfolding dump
dump_runs = refl

build_query_understood_example :
    read_name 9 (drop 12 (take 22 (datagram little 5 host 15 ++ drop 22 (replicate 64 0))))
    ≡ some (labels host, net16 15 ++ net16 1)
build_query_understood_example =
    build_query_understood little 5 (replicate 64 0) host 15
      (datagram little 5 host 15 ++ drop 22 (replicate 64 0)) 22 9 host-Proper (omega arith)
      (build_query-datagram little 5 (replicate 64 0) host 15 host-Proper (omega arith))
      (rw host-labels (omega arith))

abbrev answering : Dnsenum.Server
answering = record { socket = pos 3; sendto = pos 22; recvfrom = some (1 ∷ 2 ∷ []) }

main-printed_example :
    Dnsenum.main little 5 (replicate 512 0) answering host 3
    ≡ some (some (Dnsenum.printed (datagram little 5 host 15) (dump 0 (1 ∷ 2 ∷ []))))
unfolding Dnsenum.query_type_of
main-printed_example =
    main-printed little 5 (replicate 512 0) host 15 answering (1 ∷ 2 ∷ []) 3 refl (omega arith) refl
      host-Proper refl refl refl

build_query-SameDots_example :
    Dig.build_query little (replicate 64 0) host
    ≡ Dig.build_query little (replicate 64 0) (codes "xy.z")
build_query-SameDots_example =
    build_query-SameDots little (replicate 64 0) host (codes "xy.z")
      (refl, (refl, (refl, (refl, tt))))

build_query-IsShifted_example :
    IsShifted (replicate 64 7) host (Dig.build_query little (replicate 64 7) host)
build_query-IsShifted_example = build_query-IsShifted little (replicate 64 7) host (omega arith)

axfr_query-overwritten_example : Axfr.axfr_query little host ≡ some (overwritten little host)
axfr_query-overwritten_example = axfr_query-overwritten little host (omega arith) (omega arith)

receive-AreFull_example :
    (Axfr.receive (some (replicate 512 1) ∷ some (2 ∷ []) ∷ none ∷ [])
      ≡ (shown (replicate 512 1) ∷ shown (2 ∷ []) ∷ [], Axfr.finished))
    × (Axfr.receive (some (replicate 512 1) ∷ []) ≡ (shown (replicate 512 1) ∷ [], Axfr.waiting))
receive-AreFull_example =
    receive-AreFull (replicate 512 1 ∷ []) (2 ∷ []) (none ∷ []) (refl, tt) (omega arith)
