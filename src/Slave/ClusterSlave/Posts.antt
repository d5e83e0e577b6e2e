-- ===== src/Slave/ClusterSlave/Posts.antt =====
-- The end of `_execute_subjob` in app/slave/cluster_slave.py: how often results are posted.
use cluster_runner_jie.Prelude.{
  if◌then◌else◌, ◌==◌, ℕ, zero, suc, ◌+◌, ◌-◌, ◌≤◌, ◌<◌, Bool, true, false, ◌≡◌, ◌≢◌, sym, subst,
  arith,
}
use native.Mathlib.Decide.{ℕ_discrete}

-- The loop that posts the results, `n` more times at most; `answers i` is the status of attempt `i`.
-- The result is the number of posts, and whether the last one was answered with 200.
unfoldable pub post_results : (ℕ → ℕ) → ℕ → ℕ → ℕ × Bool
post_results answers zero attempt = (attempt, false)
post_results answers (suc n) attempt =
    let rest = post_results answers n (attempt + 1) in
    if answers attempt == 200 then (attempt + 1, true) else rest

-- What `n` attempts from attempt `first` on come to.
record IsPosting (answers : ℕ → ℕ) (n first : ℕ) (r : ℕ × Bool) : Type 0 where
  least : first ≤ r.0
  most : r.0 ≤ first + n
  earlier : (i : ℕ) → first ≤ i → suc i < r.0 → answers i ≢ 200
  last : r.1 ≡ true → first < r.0 × answers (r.0 - 1) ≡ 200
  failed : r.1 ≡ false → r.0 ≡ first + n × ((i : ℕ) → first ≤ i → i < first + n → answers i ≢ 200)

module _ (answers : ℕ → ℕ) (n first : ℕ) where
  post_results-success :
      answers first ≡ 200 → post_results answers (suc n) first ≡ (first + 1, true)
  unfolding post_results
  post_results-success e = ground arith

  post_results-retry :
      answers first ≢ 200 → post_results answers (suc n) first ≡ post_results answers n (first + 1)
  unfolding post_results
  post_results-retry e = ground arith

  success-IsPosting : answers first ≡ 200 → IsPosting answers (suc n) first (first + 1, true)
  success-IsPosting e = record {
    least = omega arith;
    most = omega arith;
    earlier = λ i p q. absurd (omega arith);
    last = λ _. ground arith;
    failed = λ f. absurd (ground arith);
  }

  retry-IsPosting :
      (r : ℕ × Bool)
      → answers first ≢ 200
      → IsPosting answers n (first + 1) r
      → IsPosting answers (suc n) first r
  retry-IsPosting r e h = record {
    least = ground (arith, h.least);
    most = ground (arith, h.most);
    earlier = λ i p q. elim (ℕ_discrete i first) [
      | yes d ↦ subst (λ j. answers j ≢ 200) (sym d) e
      | no d ↦ h.earlier i (omega arith) q
    ];
    last = λ t. ground (arith, h.last t);
    failed = λ f. (
      ground (arith, (h.failed f).0),
      λ i p q. elim (ℕ_discrete i first) [
        | yes d ↦ subst (λ j. answers j ≢ 200) (sym d) e
        | no d ↦ (h.failed f).1 i (omega arith) (omega arith)
      ],
    );
  }

post_results-IsPosting :
    (answers : ℕ → ℕ) (n first : ℕ) → IsPosting answers n first (post_results answers n first)
unfolding post_results
post_results-IsPosting answers zero first = record {
  least = omega arith;
  most = omega arith;
  earlier = λ i p q. absurd (omega arith);
  last = λ t. absurd (ground arith);
  failed = λ _. (omega arith, λ i p q. absurd (omega arith));
}
post_results-IsPosting answers (suc n) first = elim (ℕ_discrete (answers first) 200) [
  | yes e ↦
      subst (IsPosting answers (suc n) first) (sym (post_results-success answers n first e))
        (success-IsPosting answers n first e)
  | no e ↦
      subst (IsPosting answers (suc n) first) (sym (post_results-retry answers n first e))
        (retry-IsPosting answers n first _ e (post_results-IsPosting answers n (first + 1)))
]

-- The results of a subjob are posted at most five times. Every post but the last one was answered
-- with something else than 200; the last one was answered with 200, or there were five and none
-- was.
pub posts_bounded :
    (answers : ℕ → ℕ)
    → let r = post_results answers 5 0 in
      r.0 ≤ 5
      × ((i : ℕ) → suc i < r.0 → answers i ≢ 200)
      × (r.1 ≡ true → answers (r.0 - 1) ≡ 200)
      × (r.1 ≡ false → r.0 ≡ 5 × ((i : ℕ) → i < 5 → answers i ≢ 200))
posts_bounded answers = (
  ground (arith, h.most),
  λ i q. h.earlier i (omega arith) q,
  λ t. (h.last t).1,
  λ f. (ground (arith, (h.failed f).0), λ i q. (h.failed f).1 i (omega arith) (omega arith)),
)
  where
    h : IsPosting answers 5 0 (post_results answers 5 0)
    h = post_results-IsPosting answers 5 0
