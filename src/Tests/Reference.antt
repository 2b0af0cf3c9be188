-- ===== src/Tests/Reference.antt =====
-- A validator with the behaviour that the client relies on, which stands in for pydantic in the
-- tests: it converts nothing.
use macpony.Prelude.{
  ℕ, String, ◌≡◌, refl, ap, Bool, true, false, ◌&&◌, not, Option, none, some, List, [], ◌∷◌, arith,
  str_eq, inl, inr, if◌then◌else◌, Bool-cases,
}
use macpony.Prelude.Int.{ℤ, eq_nat}
use macpony.Json.{
  Float, Json, null, bool, int, float, str, arr, obj, Items, nil, cons, Fields, empty, field, get,
  is_null,
}
use macpony.Server.Capabilities.{texts}
use macpony.Pydantic.{
  Annotation, any_value, none_type, str_type, int_type, float_type, bool_type, literal_str,
  literal_int, optional, list_of, dict_of, either, model, Decls, done, required, default, ◌>>=◌,
  collect, decode_empty_object, wrap, one_of, NotObject, NotText, IsPydantic,
}

all_items : (Json → Option Json) → Items → Option Items
all_items f nil = some nil
all_items f (cons j js) = do k ← f j; ks ← all_items f js; some (cons k ks)

with_dict : (Fields → Option Json) → Json → Option Json
with_dict f (obj fs) = f fs
with_dict f _ = none

with_list : (Json → Option Json) → Json → Option Json
unfolding all_items
with_list f (arr js) = elim (all_items f js) [ none ↦ none | some ks ↦ some (arr ks) ]
with_list f _ = none

is_declared : String → Decls → Bool
is_declared k done = false
is_declared k (required j a ds) = if str_eq j k then true else is_declared k ds
is_declared k (default j a v ds) = if str_eq j k then true else is_declared k ds

only_declared : Decls → Fields → Bool
unfolding is_declared
only_declared ds empty = true
only_declared ds (field k v fs) = is_declared k ds && only_declared ds fs

unfoldable mutual
  unfolding with_dict with_list only_declared decode_empty_object one_of is_null get

  pub reference : Annotation → Json → Option Json
  reference any_value j = some j
  reference none_type null = some null
  reference none_type _ = none
  reference str_type (str s) = some (str s)
  reference str_type _ = none
  reference int_type (int i) = some (int i)
  reference int_type _ = none
  reference float_type (float x) = some (float x)
  reference float_type _ = none
  reference bool_type (bool b) = some (bool b)
  reference bool_type _ = none
  reference (literal_str ss) (str s) = if one_of ss s then some (str s) else none
  reference (literal_str ss) _ = none
  reference (literal_int n) (int i) = if eq_nat i n then some (int i) else none
  reference (literal_int n) _ = none
  reference (optional a) j = let v = reference a j in if is_null j then some null else v
  reference (list_of a) j = with_list (reference a) j
  reference (dict_of a) (obj fs) = some (obj fs)
  reference (dict_of a) _ = none
  reference (either a b) j =
      let w = reference b j in elim (reference a j) [ none ↦ w | some v ↦ some v ]
  reference (model legacy strict ds) j =
      with_dict
        (λ fs. if strict && not (only_declared ds fs) then none else wrap (reference_fields ds fs))
        (if legacy then decode_empty_object j else j)

  pub reference_fields : Decls → Fields → Option Fields
  reference_fields done fs = some empty
  reference_fields (required k a ds) fs =
      let rest = reference_fields ds fs in
      do given ← get k fs; v ← reference a given; others ← rest; some (field k v others)
  reference_fields (default k a d ds) fs =
      let rest = reference_fields ds fs in
      do
        v ← elim (get k fs) [ none ↦ some d | some given ↦ reference a given ]
        others ← rest
        some (field k v others)

reference_fields-collect :
    (ds : Decls) (fs : Fields) → reference_fields ds fs ≡ collect reference ds fs
unfolding reference_fields collect
reference_fields-collect done fs = refl
reference_fields-collect (required k a ds) fs = ground (arith, reference_fields-collect ds fs)
reference_fields-collect (default k a d ds) fs = ground (arith, reference_fields-collect ds fs)

pub reference-IsPydantic : IsPydantic reference
unfolding reference
reference-IsPydantic = record {
  model_dict = λ ds fs. ap wrap (reference_fields-collect ds fs);
  model_other = λ ds j. model_other j ds;
  model_before = λ ds j. refl;
  str_text = λ s. refl;
  str_other = str_other;
  literal_text = λ ss s. refl;
  literal_other = λ ss j. literal_other j ss;
  int_int = λ i. refl;
  float_float = λ x. refl;
  bool_bool = λ b. refl;
  literal_int_int = λ n i. refl;
  any_any = λ j. refl;
  json_dict = λ fs. refl;
  int_returns = int_returns;
  float_returns = float_returns;
  bool_returns = bool_returns;
  literal_int_returns = literal_int_returns;
  dict_returns = λ a. dict_returns a;
  optional_null = λ a. refl;
  optional_other = λ a j h. ground arith;
}
  where
    model_other : (j : Json) (ds : Decls) → NotObject j → reference (model false false ds) j ≡ none
    model_other (obj fs) ds h = elim h [ ]
    model_other _ ds h = refl

    str_other : (j : Json) → NotText j → reference str_type j ≡ none
    str_other (str s) h = elim h [ ]
    str_other _ h = refl

    literal_other : (j : Json) (ss : List String) → NotText j → reference (literal_str ss) j ≡ none
    literal_other (str s) ss h = elim h [ ]
    literal_other _ ss h = refl

    int_returns : (j k : Json) → reference int_type j ≡ some k → (i : ℤ) × (k ≡ int i)
    int_returns (int i) k h = (i, ground arith)
    int_returns _ k h = cc

    float_returns : (j k : Json) → reference float_type j ≡ some k → (x : Float) × (k ≡ float x)
    float_returns (float i) k h = (i, ground arith)
    float_returns _ k h = cc

    bool_returns : (j k : Json) → reference bool_type j ≡ some k → (b : Bool) × (k ≡ bool b)
    bool_returns (bool i) k h = (i, ground arith)
    bool_returns _ k h = cc

    literal_int_returns :
        (n : ℕ) (j k : Json)
        → reference (literal_int n) j ≡ some k
        → (i : ℤ) × (k ≡ int i) × (eq_nat i n ≡ true)
    literal_int_returns n (int i) k h = elim (Bool-cases (eq_nat i n)) [
      | inl e ↦ (i, ground arith, e)
      | inr e ↦ absurd (ground arith)
    ]
    literal_int_returns n _ k h = cc

    dict_returns :
        (a : Annotation) (j k : Json)
        → reference (dict_of a) j ≡ some k
        → (fs : Fields) × (k ≡ obj fs)
    dict_returns a (obj fs) k h = (fs, ground arith)
    dict_returns a _ k h = cc

all_items-texts : (ss : List String) → all_items (reference str_type) (texts ss) ≡ some (texts ss)
unfolding all_items reference
all_items-texts [] = refl
all_items-texts (s ∷ ss) = rw (all_items-texts ss) refl

with_list-items :
    (f : Json → Option Json) (js ks : Items)
    → all_items f js ≡ some ks
    → with_list f (arr js) ≡ some (arr ks)
unfolding with_list
with_list-items f js ks h = rw (h, with_list) refl

pub reference-texts :
    (ss : List String) → reference (list_of str_type) (arr (texts ss)) ≡ some (arr (texts ss))
unfolding reference
reference-texts ss = with_list-items (reference str_type) (texts ss) (texts ss) (all_items-texts ss)
