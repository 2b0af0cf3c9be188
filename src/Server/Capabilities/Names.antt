-- ===== src/Server/Capabilities/Names.antt =====
-- Sorting keeps the names.
use macpony.Prelude.{String, ◌≡◌, refl, List, [], ◌∷◌, some, arith}
use macpony.Prelude.Dict.{is_member}
use macpony.Server.Capabilities.{insert_name, sorted_names, texts, texts_of}

insert_name-is_member :
    (k name : String) (names : List String)
    → is_member k (insert_name name names) ≡ is_member k (name ∷ names)
unfolding insert_name is_member
insert_name-is_member k name [] = refl
insert_name-is_member k name (n ∷ names) = ground (arith, insert_name-is_member k name names)

pub sorted_names-is_member :
    (k : String) (names : List String) → is_member k (sorted_names names) ≡ is_member k names
unfolding sorted_names is_member
sorted_names-is_member k [] = refl
sorted_names-is_member k (n ∷ names) =
    ground (arith, insert_name-is_member k n (sorted_names names), sorted_names-is_member k names)

pub texts_of-texts : (names : List String) → texts_of (texts names) ≡ some names
texts_of-texts [] = refl
texts_of-texts (n ∷ names) = rw (texts_of-texts names) refl
