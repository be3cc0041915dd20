-- ===== src/Conditions.antt =====
-- internal/controller/databasequeryresource_controller.go: `setCondition`, on the library's
-- `meta.SetStatusCondition`, and `truncateError`, which counts bytes.
pub mod Truncation
use db_query_operator.Prelude.{
  ℕ, ◌-◌, ◌+◌, ◌/◌, ◌%◌, Bool, Option, none, some, List, [], ◌∷◌, ◌++◌, ltb, if◌then◌else◌,
}
use db_query_operator.Prelude.Lists.{length, take}
use db_query_operator.Prelude.Text.{Text, codes}
use db_query_operator.Api.{Condition, ConditionStatus, DatabaseQueryResource}
use db_query_operator.Cluster.{Env, Pass, set_status, gets, now, ◌>>=◌}

abbrev pub condition_reconciled : Text
condition_reconciled = codes "Reconciled"

abbrev pub condition_db_connected : Text
condition_db_connected = codes "DBConnected"

-- A nil slice is an empty one to `meta.SetStatusCondition`.
abbrev pub conditions_or_empty : Option (List Condition) → List Condition
conditions_or_empty none = []
conditions_or_empty (some cs) = cs

module _ {W V D R : Type 0} (env : Env W V D R) where
  unfoldable pub set_condition : Text → ConditionStatus → Text → Text → Pass W V (Unit {0})
  set_condition type status reason message = do
    t ← now env
    generation ← gets (λ s. s.cr.generation)
    let condition : Condition = record {
      type = type;
      status = status;
      observed_generation = generation;
      last_transition_time = t;
      reason = reason;
      message = message;
    }
    set_status (λ st. record st {
      conditions = some (env.set_status_condition (conditions_or_empty st.conditions) condition);
    })

-- The bytes of a text in UTF-8.
encode_rune : ℕ → List ℕ
encode_rune c =
    if ltb c 0x80
    then c ∷ []
    else if ltb c 0x800
    then (0xc0 + c / 64) ∷ (0x80 + c % 64) ∷ []
    else if ltb c 0x10000
    then (0xe0 + c / 4096) ∷ (0x80 + c / 64 % 64) ∷ (0x80 + c % 64) ∷ []
    else (0xf0 + c / 262144) ∷ (0x80 + c / 4096 % 64) ∷ (0x80 + c / 64 % 64) ∷ (0x80 + c % 64) ∷ []

unfoldable pub encode : Text → List ℕ
unfolding encode_rune
encode [] = []
encode (c ∷ t) = encode_rune c ++ encode t

-- On bytes, as the code slices them. With a limit below 3 the code panics.
unfoldable pub truncate_error : List ℕ → ℕ → List ℕ
truncate_error msg max_len =
    if ltb max_len (length msg) then take (max_len - 3) msg ++ codes "..." else msg
