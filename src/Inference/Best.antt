-- ===== src/Inference/Best.antt =====
-- src/inference.rs, `pull_next_job`: the job that a node pulls.
use cyberfly_rust_node.Common.{
  ℕ, ◌≡◌, refl, sym, ap, ◌∙◌, ◌⊎◌, inl, inr, Bool, true, false, ◌&&◌, not, Option, none, some, List,
  [], ◌∷◌, In, arith, Bool-cases,
}
use cyberfly_rust_node.Common.Text.{Str}
use cyberfly_rust_node.Common.Assoc.{str_key}
use cyberfly_rust_node.Inference.Job.{
  InferenceJob, InferenceCapabilities, Floats, is_expired, score_for_job,
}
use cyberfly_rust_node.Inference.Scheduler.{consider, best_job}

-- What `>` on f64 satisfies; a number above 0.0 is no NaN.
pub record IsStrictOrder {F : Type 0} (fl : Floats F) : Type 0 where
  pub irrefl : (a : F) → fl.gtb a a ≡ false
  pub trans : (a b c : F) → fl.gtb a b ≡ true → fl.gtb b c ≡ true → fl.gtb a c ≡ true
  pub cotrans :
      (a b c : F)
      → fl.gtb b fl.zero_score ≡ true
      → fl.gtb a c ≡ true
      → (fl.gtb a b ≡ true) ⊎ (fl.gtb b c ≡ true)

module _ {F : Type 0} (fl : Floats F) (caps : InferenceCapabilities) (now : ℕ) where
  -- A job that the node may pull.
  abbrev pub is_eligible : InferenceJob → Bool
  is_eligible job = not (is_expired now job) && fl.gtb (score_for_job fl caps now job) fl.zero_score

  abbrev Scored : Type 0
  Scored = Option (Str × F)

  considered :
      (job : InferenceJob) (best : Scored)
      → ((is_eligible job ≡ false) × (consider fl caps now job best ≡ best))
        ⊎ ((is_eligible job ≡ true)
            × (((consider fl caps now job best ≡ some (job.job_id, score_for_job fl caps now job))
                  × ((p : Str × F)
                      → best ≡ some p
                      → fl.gtb (score_for_job fl caps now job) p.1 ≡ true))
                ⊎ ((p : Str × F) × (best ≡ some p)
                    × (consider fl caps now job best ≡ best)
                    × (fl.gtb (score_for_job fl caps now job) p.1 ≡ false))))
  unfolding consider
  considered job none = elim (Bool-cases (is_eligible job)) [
    | inl e ↦ inr (e, inl (ground arith, λ p h. absurd (cc)))
    | inr e ↦ inl (e, ground arith)
  ]
  considered job (some (i, b)) = elim (Bool-cases (is_eligible job)) [
    | inr e ↦ inl (e, ground arith)
    | inl e ↦ elim (Bool-cases (fl.gtb (score_for_job fl caps now job) b)) [
      | inl gt ↦ inr (e, inl (ground arith, λ p h. ground arith))
      | inr le ↦ inr (e, inr ((i, b), refl, ground arith, le))
    ]
  ]

  pub record Scanned (m : List (Str × InferenceJob)) (best r : Scored) : Type 0 where
    pub none_left :
        r ≡ none → (best ≡ none) × ((e : Str × InferenceJob) → In e m → is_eligible e.1 ≡ false)
    pub source :
        (p : Str × F)
        → r ≡ some p
        → (best ≡ some p)
          ⊎ ((e : Str × InferenceJob) × In e m
              × (is_eligible e.1 ≡ true)
              × (p ≡ (e.1.job_id, score_for_job fl caps now e.1)))
    pub greatest :
        (p : Str × F)
        → r ≡ some p
        → ((e : Str × InferenceJob)
            → In e m
            → is_eligible e.1 ≡ true
            → fl.gtb (score_for_job fl caps now e.1) p.1 ≡ false)
          × ((q : Str × F) → best ≡ some q → fl.gtb q.1 p.1 ≡ false)

  module _ (order : IsStrictOrder fl) where
    no_greater : (a b c : F) → fl.gtb b a ≡ true → fl.gtb b c ≡ false → fl.gtb a c ≡ false
    no_greater a b c h g = elim (Bool-cases (fl.gtb a c)) [
      | inl e ↦ absurd (cc (order.trans b a c h e, g))
      | inr e ↦ e
    ]

    still_less :
        (a b c : F)
        → fl.gtb b fl.zero_score ≡ true
        → fl.gtb a b ≡ false
        → fl.gtb b c ≡ false
        → fl.gtb a c ≡ false
    still_less a b c pos h g = elim (Bool-cases (fl.gtb a c)) [
      | inl e ↦ elim (order.cotrans a b c pos e) [
        | inl f ↦ absurd (cc (f, h))
        | inr f ↦ absurd (cc (f, g))
      ]
      | inr e ↦ e
    ]

    kept_positive :
        (job : InferenceJob) (best : Scored)
        → ((q : Str × F) → best ≡ some q → fl.gtb q.1 fl.zero_score ≡ true)
        → (q : Str × F) → consider fl caps now job best ≡ some q
        → fl.gtb q.1 fl.zero_score ≡ true
    kept_positive job best positive q h = elim (considered job best) [
      | inl (skipped, same) ↦ positive q (sym same ∙ h)
      | inr (el, inl (new, better)) ↦
          let at : q ≡ (job.job_id, score_for_job fl caps now job) = cc (h, new) in
          ap (λ u. fl.gtb u.1 fl.zero_score) at ∙ ground arith
      | inr (el, inr (p, was, same, worse)) ↦ positive q (sym same ∙ h)
    ]

    pub scan-Scanned :
        (m : List (Str × InferenceJob)) (best : Scored)
        → ((q : Str × F) → best ≡ some q → fl.gtb q.1 fl.zero_score ≡ true)
        → Scanned m best (best_job fl caps now m best)
    unfolding best_job
    scan-Scanned [] best positive = record {
      none_left = λ h. (h, λ e i. absurd i);
      source = λ p h. inl h;
      greatest = λ p h. (λ e i. absurd i, λ q g. cc (order.irrefl p.1, h, g));
    }
    scan-Scanned ((k, job) ∷ m) best positive =
        let rest =
          scan-Scanned m (consider fl caps now job best) (kept_positive job best positive) in
        elim (considered job best) [
          | inl (skipped, same) ↦ record {
            none_left = λ h.
                let (b, others) = rest.none_left h in
                (
                  sym same ∙ b,
                  λ e i. elim i [
                    | inl at ↦ ap (λ u. is_eligible u.1) at ∙ skipped
                    | inr later ↦ others e later
                  ],
                );
            source = λ p h. elim (rest.source p h) [
              | inl b ↦ inl (sym same ∙ b)
              | inr (e, i, el, eq) ↦ inr (e, inr i, el, eq)
            ];
            greatest = λ p h.
                let (others, b) = rest.greatest p h in
                (
                  λ e i el. elim i [
                    | inl at ↦ absurd (cc (ap (λ u. is_eligible u.1) at, skipped, el))
                    | inr later ↦ others e later el
                  ],
                  λ q g. b q (same ∙ g),
                );
          }
          | inr (el, inl (new, better)) ↦ record {
            none_left = λ h. absurd (cc (new, (rest.none_left h).0));
            source = λ p h. elim (rest.source p h) [
              | inl b ↦ inr ((k, job), inl refl, el, cc (b, new))
              | inr (e, i, el', eq) ↦ inr (e, inr i, el', eq)
            ];
            greatest = λ p h.
                let (others, b) = rest.greatest p h in
                (
                  λ e i el'. elim i [
                    | inl at ↦ ap (λ u. fl.gtb (score_for_job fl caps now u.1) p.1) at ∙ b _ new
                    | inr later ↦ others e later el'
                  ],
                  λ q g. no_greater q.1 _ p.1 (better q g) (b _ new),
                );
          }
          | inr (el, inr (q', was, same, worse)) ↦ record {
            none_left = λ h. absurd (cc (same, was, (rest.none_left h).0));
            source = λ p h. elim (rest.source p h) [
              | inl b ↦ inl (sym same ∙ b)
              | inr (e, i, el', eq) ↦ inr (e, inr i, el', eq)
            ];
            greatest = λ p h.
                let (others, b) = rest.greatest p h in
                (
                  λ e i el'. elim i [
                    | inl at ↦
                        ap (λ u. fl.gtb (score_for_job fl caps now u.1) p.1) at
                        ∙ still_less _ q'.1 p.1 (positive q' was) worse (b q' (same ∙ was))
                    | inr later ↦ others e later el'
                  ],
                  λ q g. b q (same ∙ g),
                );
          }
        ]
