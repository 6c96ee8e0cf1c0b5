-- ===== src/Errors/Precedence.antt =====
-- Which failures are final.
use labmate.Common.{
  ◌≡◌, refl, Bool, true, false, not, ◌&&◌, ◌||◌, some, List, [], ◌∷◌, if◌then◌else◌, Text, is_empty,
  contains_any, strip, arith, ap, ◌∙◌,
}
use labmate.Errors.{
  ErrorClass, terminal_dependency, terminal_credential, terminal_network, rate_limited, transient,
  retryable, is_terminal, rate_markers, credential_markers, network_markers, dependency_markers,
  timeout_markers, first_class, classify_error,
}

-- The verdict by what the lower-cased text holds: five tests, of which the first that passes wins.
abbrev verdict : Bool → Bool → Bool → Bool → Bool → ErrorClass
verdict true _ _ _ _ = rate_limited
verdict false true _ _ _ = terminal_credential
verdict false false true _ _ = terminal_network
verdict false false false true _ = terminal_dependency
verdict false false false false true = transient
verdict false false false false false = retryable

first_class-verdict :
    (low : Text) (r c n d t : List Text)
    → first_class low (
        (rate_limited, r)
        ∷ (terminal_credential, c)
        ∷ (terminal_network, n)
        ∷ (terminal_dependency, d)
        ∷ (transient, t)
        ∷ [])
      ≡ verdict
          (contains_any r low)
          (contains_any c low)
          (contains_any n low)
          (contains_any d low)
          (contains_any t low)
unfolding first_class
first_class-verdict low r c n d t = ground arith

is_terminal-verdict :
    (r c n d t : Bool) → is_terminal (verdict r c n d t) ≡ (not r && (c || (n || d)))
unfolding is_terminal
is_terminal-verdict true _ _ _ _ = refl
is_terminal-verdict false true _ _ _ = refl
is_terminal-verdict false false true _ _ = refl
is_terminal-verdict false false false true _ = refl
is_terminal-verdict false false false false true = refl
is_terminal-verdict false false false false false = refl

is_terminal-first_class :
    (low : Text) (r c n d t : List Text)
    → is_terminal (
        first_class low (
          (rate_limited, r)
          ∷ (terminal_credential, c)
          ∷ (terminal_network, n)
          ∷ (terminal_dependency, d)
          ∷ (transient, t)
          ∷ []))
      ≡ (not (contains_any r low)
          && (contains_any c low || (contains_any n low || contains_any d low)))
is_terminal-first_class low r c n d t =
    ap is_terminal (first_class-verdict low r c n d t) ∙ is_terminal-verdict _ _ _ _ _

guarded :
    (b : Bool) (cls : ErrorClass) (x : Bool)
    → is_terminal cls ≡ x
    → is_terminal (if b then retryable else cls) ≡ (not b && x)
unfolding is_terminal
guarded true cls x h = refl
guarded false cls x h = h

-- A failure is terminal exactly when its stripped text is not empty and, lower-cased, holds no
-- rate-limit marker but a marker of a credential, the network or a dependency, whatever else it
-- says.
terminal_iff_markers :
    (lower : Text → Text) (error : Text)
    → is_terminal (classify_error lower (some error)) ≡ (
        not (is_empty (strip error))
        && (not (contains_any rate_markers (lower (strip error)))
            && (contains_any credential_markers (lower (strip error))
                || (contains_any network_markers (lower (strip error))
                    || contains_any dependency_markers (lower (strip error))))))
unfolding classify_error
terminal_iff_markers lower error = guarded (is_empty (strip error)) _ _ (
    is_terminal-first_class (lower (strip error)) rate_markers credential_markers network_markers
      dependency_markers timeout_markers)
