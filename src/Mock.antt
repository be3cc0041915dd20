-- ===== src/Mock.antt =====
-- internal/util/mock_database_client.go: the test double of the database client, a state that each
-- method passes on. The lock orders calls that are sequential here. Rows are of a type `R`.
use db_query_operator.Prelude.{
  Bool, if◌then◌else◌, List, [], ◌∷◌, ◌++◌, ◌≡◌, refl, sym, ◌∙◌, append-nil, append_assoc,
  Bool-cases, inl, inr, arith,
}
use db_query_operator.Prelude.Text.{Text, codes}
use db_query_operator.Prelude.Maps.{Map}
use db_query_operator.Cluster.{Reply, ok, err}

pub record MockDatabaseClient (R : Type 0) : Type 0 where
  pub rows : List R
  pub columns : List Text
  pub exec_calls : List Text
  pub fail_query : Bool

-- The text of `context.DeadlineExceeded`.
abbrev pub deadline_exceeded : Text
deadline_exceeded = codes "context deadline exceeded"

-- The result of a query, and the client afterwards.
abbrev pub Answer : Type 0 → Type 0
Answer R = Reply Text (List R × List Text) × MockDatabaseClient R

module _ {R : Type 0} where
  unfoldable pub query : MockDatabaseClient R → Text → Answer R
  query m q = if m.fail_query then (err deadline_exceeded, m) else (ok (m.rows, m.columns), m)

  unfoldable pub query_read : MockDatabaseClient R → Text → Answer R
  query_read m q = query m q

  unfoldable pub query_write : MockDatabaseClient R → Text → Answer R
  query_write m q = query m q

  unfoldable pub connect :
      MockDatabaseClient R → Map Text → Reply Text (Unit {0}) × MockDatabaseClient R
  connect m config = (ok tt, m)

  unfoldable pub exec : MockDatabaseClient R → Text → Reply Text (Unit {0}) × MockDatabaseClient R
  exec m q = (ok tt, record m { exec_calls = m.exec_calls ++ q ∷ [] })

  unfoldable pub close : MockDatabaseClient R → Reply Text (Unit {0}) × MockDatabaseClient R
  close m = (ok tt, m)

  query_read-exec :
      (m : MockDatabaseClient R) (r q : Text) → (query_read (exec m r).1 q).0 ≡ (query_read m q).0
  unfolding query_read query exec
  query_read-exec m r q = elim (Bool-cases m.fail_query) [
    | inl h ↦ ground (arith, h)
    | inr h ↦ ground (arith, h)
  ]

  exec_all : MockDatabaseClient R → List Text → MockDatabaseClient R
  exec_all m [] = m
  exec_all m (q ∷ qs) = exec_all (exec m q).1 qs

  -- The statements given to the double are kept in order, and none of them changes what it answers.
  exec_all_recorded :
      (m : MockDatabaseClient R) (qs : List Text) (q : Text)
      → ((exec_all m qs).exec_calls ≡ m.exec_calls ++ qs)
        × ((query_read (exec_all m qs) q).0 ≡ (query_read m q).0)
  unfolding exec_all exec query_read query
  exec_all_recorded m [] q = (sym (append-nil m.exec_calls), refl)
  exec_all_recorded m (r ∷ qs) q =
      let (calls, answer) = exec_all_recorded (exec m r).1 qs q in
      (calls ∙ append_assoc m.exec_calls (r ∷ []) qs, answer ∙ query_read-exec m r q)
