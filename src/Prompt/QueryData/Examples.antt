-- ===== src/Prompt/QueryData/Examples.antt =====
-- The query "a=1", changed and copied.
use demolition_app.Base.{
  suc, ◌≡◌, ◌==◌, refl, String, true, some, List, [], ◌∷◌, arith, if◌then◌else◌,
}
use demolition_app.Base.Dict.{lookup, DistinctTexts}
use demolition_app.Prompt.QueryData.{Store, QueryData, clone, add}
use demolition_app.Prompt.QueryData.Totals.{total, IsCounted, Call, adds, sets, removes, add-clone}

abbrev store : Store
store = record { arrays = λ r. if r == 0 then "1" ∷ [] else []; next = 1 }

abbrev query : QueryData
query = record { refs = ("a", 0) ∷ []; count = 1; text = some "a=1"; ignore_case = true }

query-IsCounted : IsCounted store query
unfolding DistinctTexts
query-IsCounted = record {
  distinct = (λ e. e, tt);
  own = λ r. ground arith;
  fresh = λ r l. ground (arith, l);
  counted = refl;
}

abbrev same : String → String
same k = k

abbrev calls : List Call
calls = adds "a" "2" ∷ sets "b" "3" ∷ removes "a" ∷ []

key-a : lookup "a" query.refs ≡ some 0
unfolding lookup
key-a = refl

add-clone_example :
    total (add same "a" "2" store (clone query)).0.arrays query.refs ≡ suc query.count
add-clone_example = add-clone same "a" "2" 0 store query query-IsCounted key-a
