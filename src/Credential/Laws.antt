-- ===== src/Credential/Laws.antt =====
-- src/credential.rs: what an `Authorization` value is read as.
use authn_kit.Prelude.{
  ℕ, ◌≡◌, ◌≢◌, ◌↔◌, inl, inr, refl, ◌∙◌, Option, some, List, [], ◌∷◌, ◌++◌, arith, Option-cases,
}
use authn_kit.Text.{
  Text, str, is_whitespace, lower, to_ascii_lowercase, text_eq, trim, trim_start, trim_end,
  split_once,
}
use authn_kit.Text.Utf8.{from_utf8}
use authn_kit.Text.Splitting.{
  Free, IsWord, split_once-append, split_once_none, trim_end-append, trim-trim_end,
}
use authn_kit.Credential.{
  basic, none, split_basic, read_basic, parse_basic, of_scheme, from_authorization_header,
}

-- Letters in lower case are no whitespace unless they were.
IsWord-lower : (s : Text) → IsWord (to_ascii_lowercase s) → IsWord s
unfolding lower is_whitespace
IsWord-lower [] h = tt
IsWord-lower (c ∷ s) (n, h) = (ground (arith, n), IsWord-lower s h)

Free-IsWord : (s : Text) → IsWord s → Free b' ' s
unfolding is_whitespace
Free-IsWord [] h = tt
Free-IsWord (c ∷ s) (n, h) = (ground (arith, n), Free-IsWord s h)

Free-split_once : (d : ℕ) (s : Text) → split_once d s ≡ Option.none → Free d s
unfolding split_once
Free-split_once d [] h = tt
Free-split_once d (c ∷ s) h = (ground (arith, h), Free-split_once d s (ground (arith, h)))

-- A scheme and a parameter, in the form in which a client sends them.
trim-header :
    (c : ℕ) (s p : Text)
    → IsWord (c ∷ s)
    → trim_end p ≢ []
    → trim (c ∷ s ++ b' ' ∷ p) ≡ c ∷ s ++ b' ' ∷ trim_end p
unfolding trim_start trim_end
trim-header c s p (n, h) q = rw n (ground (arith, n, q, trim_end-append s (b' ' ∷ p) h))

module _ (decode : Text → Option (List ℕ)) where
  -- A value that is a scheme, a space and a parameter is read by the scheme, whose letters may have
  -- any case, and by the parameter without the whitespace around it; spaces within it are kept.
  pub from_authorization_header-of_scheme :
      (s p : Text)
      → s ≢ []
      → IsWord s
      → trim_end p ≢ []
      → from_authorization_header decode (s ++ b' ' ∷ p)
        ≡ of_scheme decode (to_ascii_lowercase s) (trim p)
  unfolding from_authorization_header
  from_authorization_header-of_scheme [] p n h q = absurd (n refl)
  from_authorization_header-of_scheme (c ∷ s) p n h q =
      rw (trim-header c s p h q, from_authorization_header)
        (rw
          (
            split_once-append b' ' (c ∷ s) (trim_end p) (Free-IsWord (c ∷ s) h),
            from_authorization_header,
          )
          (rw (trim-trim_end p)))

  of_scheme-ne-none : (scheme parameter : Text) → of_scheme decode scheme parameter ≢ none
  unfolding of_scheme parse_basic read_basic split_basic
  of_scheme-ne-none scheme parameter h = ground (arith, h)

  -- A value is read as no credential at all exactly if it has no space once it is trimmed.
  pub from_authorization_header-none_iff :
      (value : Text) → (from_authorization_header decode value ≡ none) ↔ Free b' ' (trim value)
  unfolding from_authorization_header
  from_authorization_header-none_iff value = (
    λ h. elim (Option-cases (split_once b' ' (trim value))) [
      | inl n ↦ Free-split_once b' ' (trim value) n
      | inr ((s, p), n) ↦ absurd (
          of_scheme-ne-none (to_ascii_lowercase s) (trim p)
            (rw (n, from_authorization_header) at h))
    ],
    λ h. rw (split_once_none b' ' (trim value) h, from_authorization_header),
  )

  of_scheme-basic :
      (parameter id secret : Text) (bytes : List ℕ)
      → decode parameter ≡ some bytes
      → from_utf8 bytes ≡ some (id ++ b':' ∷ secret)
      → Free b':' id
      → of_scheme decode (str "basic") parameter ≡ basic id secret
  unfolding of_scheme parse_basic read_basic split_basic text_eq str
  of_scheme-basic parameter id secret bytes d u h =
      ground (arith, d, u, split_once-append b':' id secret h)

  -- RFC 7617: under the scheme `Basic`, in any case, the user-id ends at the first colon of the
  -- decoded payload, and the password is all that follows, colons included.
  pub from_authorization_header-basic :
      (s payload id secret : Text) (bytes : List ℕ)
      → to_ascii_lowercase s ≡ str "basic"
      → trim payload ≡ payload
      → trim_end payload ≢ []
      → decode payload ≡ some bytes
      → from_utf8 bytes ≡ some (id ++ b':' ∷ secret)
      → Free b':' id
      → from_authorization_header decode (s ++ b' ' ∷ payload) ≡ basic id secret
  unfolding str is_whitespace
  from_authorization_header-basic s payload id secret bytes e t q d u h =
      let word : IsWord s = IsWord-lower s (rw e (refl, (refl, (refl, (refl, (refl, tt)))))) in
      let some_scheme : s ≢ [] = λ n. ground (arith, e, n) in
      from_authorization_header-of_scheme s payload some_scheme word q
      ∙ rw (e, t) (of_scheme-basic payload id secret bytes d u h)
