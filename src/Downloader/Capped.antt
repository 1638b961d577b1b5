-- ===== src/Downloader/Capped.antt =====
-- Reading a body in pieces under a limit.
use netspy.Base.{
  ℕ, ◌≤◌, ◌≡◌, refl, true, false, Option, List, [], ◌∷◌, ◌++◌, length, length-append, append_assoc,
  append-nil, Outcome, returned, raised, arith, if◌then◌else◌, ltb, leb, Bool-cases, inl, inr, ap,
  ◌∙◌,
}
use netspy.Downloader.{read_chunks, read_capped, join, exceeds}

-- The specification: the whole body, or an exception if it is too long.
abbrev pub within {ℓ} : {A : Type ℓ} → ℕ → List A → Outcome (List A)
within limit body = if ltb limit (length body) then raised else returned body

module _ {ℓ} {A : Type ℓ} where
  not_longer : (limit : ℕ) (xs : List A) → ltb limit (length xs) ≡ false → length xs ≤ limit
  not_longer limit xs h = ground (arith, h)

  too_long :
      (limit : ℕ) (buf chunk rest : List A)
      → ltb limit (length (buf ++ chunk)) ≡ true
      → ltb limit (length (buf ++ (chunk ++ rest))) ≡ true
  too_long limit buf chunk rest h = ground (
    arith,
    h,
    length-append buf chunk,
    length-append buf (chunk ++ rest),
    length-append chunk rest,
  )

  read_chunks_lem :
      (limit : ℕ) (buf : List A) (chunks : List (List A))
      → length buf ≤ limit
      → read_chunks limit buf chunks ≡ within limit (buf ++ join chunks)
  unfolding read_chunks join
  read_chunks_lem limit buf [] h = rw (append-nil buf) (ground (arith, h))
  read_chunks_lem limit buf (chunk ∷ chunks) h =
      elim (Bool-cases (ltb limit (length (buf ++ chunk)))) [
        | inl e ↦ rw (e, too_long limit buf chunk (join chunks) e) refl
        | inr e ↦ rw e (
            read_chunks_lem limit (buf ++ chunk) chunks (not_longer limit (buf ++ chunk) e)
            ∙ ap (within limit) (append_assoc buf chunk (join chunks)))
      ]

  -- With a positive limit, the capped reading of a body gives the whole body if neither its length nor the declared length
  -- exceeds the limit, and raises otherwise, wherever the body is cut into chunks; without a limit it gives
  -- the whole body.
  pub read_capped_lem :
      (limit : ℕ) (declared : Option ℕ) (chunks : List (List A))
      → read_capped limit declared chunks ≡ (
          if leb limit 0
          then returned (join chunks)
          else if exceeds limit declared
          then raised
          else within limit (join chunks))
  unfolding read_capped
  read_capped_lem limit declared chunks =
      ap
        (λ r.
          if leb limit 0
          then returned (join chunks)
          else if exceeds limit declared
          then raised
          else r)
        (read_chunks_lem limit [] chunks (omega arith))
