-- ===== src/Graph/Routing/Retries.antt =====
-- How often `verify` sends the run back to `reflect`.
use labmate.Common.{
  ℕ, ◌+◌, ◌≤◌, ◌≡◌, Bool, false, ◌&&◌, Option, none, some, List, [], ◌∷◌, if◌then◌else◌, ltb, arith,
}
use labmate.Graph.{Limits, Artifact, ArtifactType}
use labmate.Graph.Routing.{
  State, to_check, to_reflect, Reply, artifact_type, score_of, verify, verify_router,
}

-- What the run brings to one pass of `verify`.
pub record Pass (Score : Type 0) : Type 0 where
  pub artifact : Option Artifact
  pub has_skills : Bool
  pub reply : Reply Score

module _ {Score : Type 0} (l : Limits) (at_least below : Score → Score → Bool)
    (one ambiguity_threshold critique_threshold : Score) (critiqued : ArtifactType → Bool) where
  abbrev pub verify_pass : Pass Score → State Score → State Score
  verify_pass p s =
      verify l at_least below one ambiguity_threshold critique_threshold critiqued p.has_skills
        p.reply (record s { last_artifact = p.artifact })

  abbrev pub reflects : State Score → Bool
  reflects s = elim s.verify_reflect [ none ↦ false | some b ↦ b ]

  -- The passes that call for a reflection, and the state after the last pass.
  unfoldable pub reflections : List (Pass Score) → State Score → ℕ × State Score
  reflections [] s = (0, s)
  reflections (p ∷ ps) s =
      let s' = verify_pass p s in
      let (n, last) = reflections ps s' in ((if reflects s' then n + 1 else n), last)

  verify_pass-retries :
      (p : Pass Score) (s : State Score)
      → s.verify_retries ≤ l.max_verify_retries
      → ((verify_pass p s).verify_retries
          ≡ (if reflects (verify_pass p s) then s.verify_retries + 1 else s.verify_retries))
        × ((verify_pass p s).verify_retries ≤ l.max_verify_retries)
  unfolding verify
  verify_pass-retries p s h = ground arith

  -- Over any passes, from a count of retries within MAX_VERIFY_RETRIES, the reflections that `verify`
  -- calls for are the retries that it adds to the count, which stays within MAX_VERIFY_RETRIES.
  verify_is_bounded :
      (ps : List (Pass Score)) (s : State Score)
      → s.verify_retries ≤ l.max_verify_retries
      → ((reflections ps s).0 + s.verify_retries ≡ (reflections ps s).1.verify_retries)
        × ((reflections ps s).1.verify_retries ≤ l.max_verify_retries)
  unfolding reflections
  verify_is_bounded [] s h = (omega arith, h)
  verify_is_bounded (p ∷ ps) s h =
      let (step, bound) = verify_pass-retries p s h in
      let (sum, last) = verify_is_bounded ps (verify_pass p s) bound in
      (ground (arith, step, sum), last)

  -- After a pass of a run that does not skip verification, the run goes to `reflect` exactly if the
  -- artifact is of a critiqued type, there is a skill router, the score is below the threshold and
  -- a retry is left; otherwise it goes to `check`.
  verify_routes :
      (has_skills : Bool) (reply : Reply Score) (s : State Score)
      → s.skip_verify ≡ false
      → verify_router l at_least below one ambiguity_threshold critique_threshold (
          verify l at_least below one ambiguity_threshold critique_threshold critiqued has_skills
            reply s)
        ≡ (if critiqued (artifact_type s.last_artifact)
              && (has_skills
                  && (below
                        (score_of l at_least below one ambiguity_threshold critique_threshold reply)
                        critique_threshold
                      && ltb s.verify_retries l.max_verify_retries))
            then to_reflect
            else to_check)
  unfolding verify verify_router
  verify_routes has_skills reply s h = ground arith
