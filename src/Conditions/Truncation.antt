-- ===== src/Conditions/Truncation.antt =====
-- The length of a truncated error message.
use Prim.Native.Nat.{min}
use db_query_operator.Prelude.{◌⊎◌, ℕ, ◌-◌, ◌≤◌, ◌≡◌, List, ◌++◌, arith}
use db_query_operator.Prelude.Lists.{length, take, length-append, length-take}
use db_query_operator.Prelude.Text.{codes}
use db_query_operator.Conditions.{truncate_error}

-- For a limit of three bytes or more the truncated message is as long as the message or the limit,
-- whichever is less, and is either the message, or a part of it with three dots behind it.
pub truncate_error_lem :
    (msg : List ℕ) (max_len : ℕ)
    → 3 ≤ max_len
    → (length (truncate_error msg max_len) ≡ min max_len (length msg))
      × ((truncate_error msg max_len ≡ msg)
          ⊎ (truncate_error msg max_len ≡ take (max_len - 3) msg ++ codes "..."))
unfolding truncate_error
truncate_error_lem msg max_len h =
    ground
      (arith, length-append (take (max_len - 3) msg) (codes "..."), length-take (max_len - 3) msg)
