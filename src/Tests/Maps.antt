-- ===== src/Tests/Maps.antt =====
-- An attribute set of three keys, and servlets.
use minapp.Base.{
  ℕ, ◌/◌, ◌≡◌, refl, Bool, true, false, ◌&&◌, some, none, List, [], ◌∷◌, length, if◌then◌else◌,
  arith,
}
use minapp.AttributeSet.Keys.{Key, Value}
use minapp.AttributeSet.Listed.{Entries, listed}
use minapp.AttributeSet.{
  visit, Visited, same_object, contains, get, set, remove, remove_if, emplace, replace, replace_if,
  foreach, foreach_between, is_over,
}
use minapp.AttributeSet.Laws.{conditional_operations}
use minapp.AttributeSet.Foreach.{IsCalled, foreach_complete}
use minapp.Servlets as srv
use minapp.Servlets.Stored.{servlet_stays}

abbrev key_a : Key
key_a = 97 ∷ []

abbrev key_ab : Key
key_ab = 97 ∷ 98 ∷ []

abbrev key_b : Key
key_b = 98 ∷ []

abbrev entries : Entries
entries = (key_b, some 1) ∷ (key_a, none) ∷ (key_ab, some 3) ∷ []

conditional_operations_example :
    (emplace listed key_a (some 7) entries ≡ (
      if contains listed key_a entries
      then (get listed key_a entries, entries)
      else set listed key_a (some 7) entries))
    × (replace listed key_a (some 7) entries ≡ (
        if contains listed key_a entries
        then set listed key_a (some 7) entries
        else (none, entries)))
    × (replace_if listed key_a none (some 7) entries ≡ (
        if contains listed key_a entries && same_object (get listed key_a entries) none
        then (true, (set listed key_a (some 7) entries).1)
        else (false, entries)))
    × (remove_if listed key_a none entries ≡ (
        if contains listed key_a entries && same_object (get listed key_a entries) none
        then (true, (remove listed key_a entries).1)
        else (false, entries)))
conditional_operations_example = conditional_operations listed key_a (some 7) none entries

abbrev look : Key → Value → Entries → Bool × Entries
look k v m = (true, m)

foreach_complete_example :
    (r : Visited Entries) × (foreach listed look 9 entries ≡ some r)
    × (r.set_after ≡ entries)
    × (r.count ≡ length r.calls)
    × IsCalled key_ab (some 3) r.calls
foreach_complete_example =
    foreach_complete listed look (λ k v m. refl) 9 entries key_ab (some 3) (omega arith) refl

abbrev between : Visited Entries
between = record { count = 2; set_after = entries; calls = (key_ab, some 3) ∷ (key_b, some 1) ∷ [] }

between_result : foreach_between listed look key_a key_b false true 9 entries ≡ some between
unfolding foreach_between visit is_over
between_result = refl

-- A type's bytes are its number; an object holds a value of the type that is a tenth of its number.
abbrev bytes_of : ℕ → List ℕ
bytes_of type = type ∷ 0 ∷ []

abbrev type_of : ℕ → ℕ
type_of o = o / 10

-- The servlet of type 4 is made with the context as object 41, and stays it.
servlet_stays_example :
    let (r, m') = srv.servlet bytes_of 0 type_of listed 4 [] (some 41) 42 srv.ops_ret entries in
    ((srv.servlet bytes_of 0 type_of listed 4 [] (some 43) 44 srv.ops_ret m').0 ≡ r)
    × ((srv.servlet bytes_of 0 type_of listed 4 [] (some 43) 44 srv.ops_get m').0 ≡ r)
servlet_stays_example =
    servlet_stays bytes_of 0 type_of listed 4 [] (some 41) (some 43) 42 44 entries

made_once :
    (srv.servlet bytes_of 0 type_of listed 4 [] (some 41) 42 srv.ops_ret entries).0 ≡ srv.object 41
unfolding srv.servlet srv.op srv.op_callback srv.id srv.as_ref get
made_once = refl
