-- ===== src/Util/LogOnce/Laws.antt =====
-- When `log_once` keeps its promise.
use gst_app.Prelude.{
  ℕ, zero, suc, ◌≤◌, ◌<◌, ◌≡◌, inl, inr, refl, sym, ap, ℤ, true, false, Bool-cases, List, [], ◌∷◌,
  ◌++◌, length, take, All, All-append, length-append, same_bytes, same_bytes_iff, ltb, subst, arith,
}
use gst_app.Util.LogOnce.{known, remember, passes_level, log_once}

known-append : (m : List ℕ) (front : List (List ℕ)) → known m (front ++ (m ∷ [])) ≡ true
known-append m [] = ground (arith, (same_bytes_iff m m).1)
known-append m (e ∷ front) = ground (arith, known-append m front)

take_all : (n : ℕ) (m : List ℕ) → length m ≤ n → take n m ≡ m
take_all zero [] h = refl
take_all zero (x ∷ m) h = absurd (omega arith)
take_all (suc n) [] h = refl
take_all (suc n) (x ∷ m) h = ap (λ r. x ∷ r) (take_all n m (omega arith))

length-take_le : (n : ℕ) (m : List ℕ) → length (take n m) ≤ n
length-take_le zero m = omega arith
length-take_le (suc n) [] = omega arith
length-take_le (suc n) (x ∷ m) = omega (arith, length-take_le n m)

-- The table as the calls leave it.
pub record IsTable (table : List (List ℕ)) : Type 0 where
  pub small : length table ≤ 255
  pub short : All (λ e. length e ≤ 255) table

remember-IsTable : (m : List ℕ) (table : List (List ℕ)) → IsTable table → IsTable (remember m table)
unfolding remember
remember-IsTable m table h = elim (Bool-cases (ltb (length table) 255)) [
  | inl room ↦ rw room (record {
    small = ground (arith, length-append table (take 255 m ∷ []));
    short =
        All-append (λ e. length e ≤ 255) table (take 255 m ∷ []) h.short (length-take_le 255 m, tt);
  })
  | inr full ↦ rw full h
]

known-short :
    (m : List ℕ) (table : List (List ℕ))
    → All (λ e. length e ≤ 255) table
    → known m table ≡ true
    → length m ≤ 255
known-short m [] h k = absurd (ground arith)
known-short m (e ∷ table) h k = elim (Bool-cases (same_bytes m e)) [
  | inl same ↦ subst (λ x. length x ≤ 255) (sym ((same_bytes_iff m e).0 same)) h.0
  | inr other ↦ known-short m table h.1 (ground arith)
]

module _ (log_level dbg_level opt : ℤ) (message : List ℕ) (table : List (List ℕ)) where
  remembered :
      length message ≤ 255 → length table < 255 → known message (remember message table) ≡ true
  unfolding remember
  remembered short room =
      let fits : ltb (length table) 255 ≡ true = ground arith in
      rw (fits, take_all 255 message short) (known-append message table)

  -- A call keeps the table at no more than 255 entries of no more than 255 bytes. A message of at
  -- most 255 bytes that finds room in it is logged once: the next call with it writes nothing and
  -- leaves the table alone.
  log_once_again :
      IsTable table
      → let after : List (List ℕ) = (log_once log_level dbg_level opt message table).table in
        IsTable after
        × (length message ≤ 255
            → length table < 255
            → log_once log_level dbg_level opt message after
              ≡ record { table = after; to_syslog = false; to_console = false })
  unfolding log_once
  log_once_again h = elim (Bool-cases (known message table)) [
    | inl seen ↦ rw seen (h, λ short room. rw seen refl)
    | inr new ↦
        rw new (remember-IsTable message table h, λ short room. rw (remembered short room) refl)
  ]

  -- With a table as the calls leave it, a message of more than 255 bytes is logged by every call, as
  -- if it were new.
  pub log_once_long :
      IsTable table
      → 255 < length message
      → ((log_once log_level dbg_level opt message table).to_syslog ≡ passes_level opt log_level)
        × ((log_once log_level dbg_level opt message table).to_console ≡ passes_level opt dbg_level)
  unfolding log_once
  log_once_long h long = elim (Bool-cases (known message table)) [
    | inl seen ↦ absurd (ground (arith, known-short message table h.short seen))
    | inr new ↦ rw new (refl, refl)
  ]
