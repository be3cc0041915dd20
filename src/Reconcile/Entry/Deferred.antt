-- ===== src/Reconcile/Entry/Deferred.antt =====
-- The deferred write of the status.
use db_query_operator.Prelude.{
  ℕ, zero, suc, ◌≤◌, Bool, true, false, ◌≡◌, refl, sym, ap, ◌∙◌, List, [], ◌∷◌, ◌++◌, map, arith,
  append-nil, append_assoc, Bool-cases, inl, inr,
}
use db_query_operator.Prelude.Lists.{length, All}
use db_query_operator.Prelude.Text.{Text}
use db_query_operator.Api.{DatabaseQueryResource, DatabaseQueryResourceStatus}
use db_query_operator.Cluster.{
  ApiError, is_conflict, Reply, ok, err, cr_status_updated, Env, State, get_cr,
}
use db_query_operator.Reconcile.Entry.{
  max_status_retries, write_status, after_refetch, after_status_write, status_retry, compare_status,
  write_back,
}

-- Status writes, from `low` to `n` of them, each with the given status.
pub record StatusWrites {W V : Type 0} (st : DatabaseQueryResourceStatus) (low n : ℕ)
    (s t : State W V) : Type 0 where
  pub writes : List DatabaseQueryResource
  pub least : low ≤ length writes
  pub bounded : length writes ≤ n
  pub each : All (λ d. d.status ≡ st) writes
  pub calls : t.calls ≡ s.calls ++ map cr_status_updated writes
  pub same_cr : t.cr ≡ s.cr

-- The status that a pass leaves: the one in memory, for the generation that was read.
abbrev pub final_status : DatabaseQueryResource → DatabaseQueryResourceStatus
final_status cr = record cr.status { observed_generation = cr.generation }

module _ {W V D R : Type 0} (env : Env W V D R) (ns name : Text)
    (st : DatabaseQueryResourceStatus) where
  no_write : (n : ℕ) (s t : State W V) → t.calls ≡ s.calls → t.cr ≡ s.cr → StatusWrites st 0 n s t
  no_write n s t c r = record {
    writes = [];
    least = omega arith;
    bounded = omega arith;
    each = tt;
    calls = c ∙ sym (append-nil s.calls);
    same_cr = r;
  }

  module _ (n : ℕ)
      (ih : (d : DatabaseQueryResource) (s : State W V)
        → StatusWrites st 0 n s (status_retry env n ns name st d s).1) where
    after_refetch-writes :
        (r : Reply ApiError DatabaseQueryResource) (s : State W V)
        → StatusWrites st 0 n s (after_refetch env (status_retry env n ns name st) r s).1
    unfolding after_refetch
    after_refetch-writes (ok latest) s = ih latest s
    after_refetch-writes (err e) s = no_write n s s refl refl

    after_status_write-writes :
        (r : Reply ApiError DatabaseQueryResource) (s : State W V)
        → StatusWrites st 0 n s
            (after_status_write env (status_retry env n ns name st) ns name r s).1
    unfolding after_status_write
    after_status_write-writes (ok d) s = no_write n s s refl refl
    after_status_write-writes (err e) s = elim (Bool-cases (is_conflict e)) [
      | inl c ↦
          let (r, t) = get_cr env ns name s in
          let w = after_refetch-writes r t in
          rw (c, after_status_write)
            (record {
              writes = w.writes;
              least = w.least;
              bounded = w.bounded;
              each = w.each;
              calls = w.calls;
              same_cr = w.same_cr;
            })
      | inr c ↦ rw (c, after_status_write) (no_write n s s refl refl)
    ]

  one_more :
      (n : ℕ) (d : DatabaseQueryResource) (s t u : State W V)
      → d.status ≡ st
      → t.calls ≡ s.calls ++ cr_status_updated d ∷ []
      → t.cr ≡ s.cr
      → StatusWrites st 0 n t u
      → StatusWrites st 1 (suc n) s u
  one_more n d s t u e c r w = record {
    writes = d ∷ w.writes;
    least = omega arith;
    bounded = omega (arith, w.bounded);
    each = (e, w.each);
    calls =
        w.calls
        ∙ ap (λ x. x ++ map cr_status_updated w.writes) c
        ∙ append_assoc s.calls (cr_status_updated d ∷ []) (map cr_status_updated w.writes);
    same_cr = w.same_cr ∙ r;
  }

  some_or_none : (n : ℕ) (s t : State W V) → StatusWrites st 1 n s t → StatusWrites st 0 n s t
  some_or_none n s t w = record {
    writes = w.writes;
    least = omega arith;
    bounded = w.bounded;
    each = w.each;
    calls = w.calls;
    same_cr = w.same_cr;
  }

  status_retry-some :
      (n : ℕ) (d : DatabaseQueryResource) (s : State W V)
      → ((d : DatabaseQueryResource) (s : State W V)
          → StatusWrites st 0 n s (status_retry env n ns name st d s).1)
      → StatusWrites st 1 (suc n) s (status_retry env (suc n) ns name st d s).1
  unfolding status_retry write_status
  status_retry-some n d s ih =
      let d' : DatabaseQueryResource = record d { status = st } in
      let (r, t) = write_status env d' s in
      one_more n d' s t _ refl refl refl (after_status_write-writes n ih r t)

  status_retry-writes :
      (n : ℕ) (d : DatabaseQueryResource) (s : State W V)
      → StatusWrites st 0 n s (status_retry env n ns name st d s).1
  unfolding status_retry
  status_retry-writes zero d s = no_write 0 s s refl refl
  status_retry-writes (suc n) d s =
      some_or_none (suc n) s _ (status_retry-some n d s (status_retry-writes n))

module _ {W V D R : Type 0} (env : Env W V D R) (ns name : Text) where
  -- Nothing where the API server has that status already, and else one to three writes of it.
  abbrev pub WrittenBack : Bool → State W V → State W V → Type 0
  WrittenBack true s t = (t.calls ≡ s.calls) × (t.cr ≡ s.cr)
  WrittenBack false s t = StatusWrites (final_status s.cr) 1 max_status_retries s t

  retried :
      (latest : DatabaseQueryResource) (s t : State W V)
      → (t.calls ≡ s.calls) × (t.cr ≡ s.cr)
      → StatusWrites
          (final_status s.cr)
          1
          max_status_retries
          s
          (status_retry env max_status_retries ns name (final_status s.cr) latest t).1
  retried latest s t (c, r) =
      let w =
        status_retry-some env ns name (final_status s.cr) 2 latest t
          (status_retry-writes env ns name (final_status s.cr) 2) in
      record {
        writes = w.writes;
        least = w.least;
        bounded = w.bounded;
        each = w.each;
        calls = w.calls ∙ ap (λ x. x ++ map cr_status_updated w.writes) c;
        same_cr = w.same_cr ∙ r;
      }

  -- At the end of a pass the status in memory, with the generation that the pass has read, is
  -- compared with that of the API server: where the two are the same nothing is written, and else
  -- there are one to three writes, each of that status, and no other write.
  pub write_back-WrittenBack :
      (s : State W V) (latest : DatabaseQueryResource)
      → (env.get_cr s.world ns name).0 ≡ ok latest
      → WrittenBack
          (env.status_deep_equal latest.status (final_status s.cr))
          s
          (write_back env ns name s).1
  unfolding write_back compare_status
  write_back-WrittenBack s latest h =
      let t = (get_cr env ns name s).1 in
      elim (Bool-cases (env.status_deep_equal latest.status (final_status s.cr))) [
        | inl e ↦ rw (h, e, compare_status) (refl, refl)
        | inr e ↦ rw (h, e, compare_status) (retried latest s t (refl, refl))
      ]
