-- ===== src/Session/Manager/Counting.antt =====
-- The sessions of each key in the map of the manager.
use agent_gpu.Prelude.{
  ℕ, ◌+◌, ◌≡◌, refl, String, str_eq, eq_iff, none, some, List, [], ◌∷◌, lookup, insert, remove,
  lookup-insert, lookup-remove, arith, if◌then◌else◌,
}
use agent_gpu.Session.Manager.{Session}

unfoldable pub owned_by : String → List (String × Session) → ℕ
owned_by k [] = 0
owned_by k ((_, s) ∷ m) = (if str_eq s.owner_key_id k then 1 else 0) + owned_by k m

-- Each session stands under its own id, and under no other entry.
abbrev pub IsSessions : List (String × Session) → Type 0
IsSessions [] = Unit {0}
IsSessions ((i, s) ∷ m) = (i ≡ s.id) × (lookup i m ≡ none) × IsSessions m

pub insert-IsSessions :
    (s : Session) (m : List (String × Session)) → IsSessions m → IsSessions (insert s.id s m)
unfolding insert lookup
insert-IsSessions s [] h = (refl, refl, tt)
insert-IsSessions s ((i, w) ∷ m) h =
    ground
      (arith, eq_iff s.id i, eq_iff i s.id, lookup-insert s.id i s m, insert-IsSessions s m h.2)

pub remove-IsSessions :
    (id : String) (m : List (String × Session)) → IsSessions m → IsSessions (remove id m)
unfolding remove lookup
remove-IsSessions id [] h = tt
remove-IsSessions id ((i, w) ∷ m) h =
    ground (arith, eq_iff i id, remove-IsSessions id m h.2, lookup-remove id i m)

pub owned_by-insert_new :
    (k : String) (s : Session) (m : List (String × Session))
    → lookup s.id m ≡ none
    → owned_by k (insert s.id s m) ≡ owned_by k m + (if str_eq s.owner_key_id k then 1 else 0)
unfolding owned_by insert lookup
owned_by-insert_new k s [] h = ground arith
owned_by-insert_new k s ((i, w) ∷ m) h = ground (arith, owned_by-insert_new k s m)

pub owned_by-insert_old :
    (k : String) (s old : Session) (m : List (String × Session))
    → lookup s.id m ≡ some old
    → old.owner_key_id ≡ s.owner_key_id
    → owned_by k (insert s.id s m) ≡ owned_by k m
unfolding owned_by insert lookup
owned_by-insert_old k s old [] h e = ground arith
owned_by-insert_old k s old ((i, w) ∷ m) h e = ground (arith, owned_by-insert_old k s old m)

remove-none : (id : String) (m : List (String × Session)) → lookup id m ≡ none → remove id m ≡ m
unfolding remove lookup
remove-none id [] h = refl
remove-none id ((i, w) ∷ m) h = ground (arith, remove-none id m)

pub owned_by-remove :
    (k id : String) (s : Session) (m : List (String × Session))
    → IsSessions m
    → lookup id m ≡ some s
    → owned_by k m ≡ owned_by k (remove id m) + (if str_eq s.owner_key_id k then 1 else 0)
unfolding owned_by remove lookup
owned_by-remove k id s [] i h = ground arith
owned_by-remove k id s ((j, w) ∷ m) i h =
    ground (arith, owned_by-remove k id s m i.2, remove-none id m, eq_iff j id)
