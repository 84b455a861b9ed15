-- ===== src/Tests/Whoises.antt =====
-- A run of the whois client.
use c_network_tools.Base.{◌≡◌, refl, [], ◌∷◌, ◌++◌, some, none, arith, pos, true}
use c_network_tools.Whois.{Server, received, ended, main, line_end}
use c_network_tools.Whois.Laws.{main-joined}

-- The answer comes in two parts.
abbrev registry : Server
registry = record {
  socket = pos 3;
  is_resolved = true;
  connect = pos 0;
  send = pos 4;
  recv = some (100 ∷ 58 ∷ []) ∷ some (10 ∷ []) ∷ some [] ∷ none ∷ [];
}

main-joined_example :
    main registry (97 ∷ 98 ∷ []) ≡ received ((97 ∷ 98 ∷ []) ++ line_end) (100 ∷ 58 ∷ 10 ∷ []) ended
main-joined_example =
    main-joined registry (97 ∷ 98 ∷ []) ((100 ∷ 58 ∷ []) ∷ (10 ∷ []) ∷ []) (none ∷ []) refl refl
      refl refl (omega arith) refl
