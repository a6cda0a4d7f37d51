-- ===== src/Source/Buffer.antt =====
-- `limitedBuffer` of internal/source/command.go.
use mathlib.Core.List.{append_assoc, append-nil}
use hetdns.Prelude.{
  min, ℕ, suc, ◌+◌, ◌-◌, ◌≤◌, ◌<◌, ◌≡◌, ◌⊎◌, refl, ap, sym, ◌∙◌, Bool, true, false, List, [], ◌∷◌,
  ◌++◌, arith, length, take, ltb, leb, if◌then◌else◌, Bool-cases, inl, inr, zero, length-append,
  length-take, take-all,
}
use hetdns.Prelude.Text.{Text}

-- `limit - Len()`, which is never negative here, is a subtraction on ℕ.
pub record Buffer : Type 0 where
  pub bytes : Text
  pub limit : ℕ
  pub exceeded : Bool

abbrev pub new_buffer : ℕ → Buffer
new_buffer limit = record { bytes = []; limit = limit; exceeded = false }

-- The count that `Write` returns, and whether it fails by `errOutputLimit`.
pub record Written : Type 0 where
  pub count : ℕ
  pub is_error : Bool
  pub buffer : Buffer

-- `Write`, given what remains.
write_some : ℕ → Text → Buffer → Written
write_some remaining chunk b =
    if leb remaining 0
    then record { count = 0; is_error = true; buffer = record b { exceeded = true } }
    else if ltb remaining (length chunk)
    then record {
      count = remaining;
      is_error = true;
      buffer = record b { bytes = b.bytes ++ take remaining chunk; exceeded = true };
    }
    else record {
      count = length chunk;
      is_error = false;
      buffer = record b { bytes = b.bytes ++ chunk };
    }

-- `Write`.
unfoldable pub write : Text → Buffer → Written
unfolding write_some
write chunk b = write_some (b.limit - length b.bytes) chunk b

-- A sequence of writes, whatever they return.
unfoldable pub write_all : List Text → Buffer → Buffer
write_all [] b = b
write_all (chunk ∷ rest) b = write_all rest (write chunk b).buffer

abbrev pub all_bytes : List Text → Text
all_bytes [] = []
all_bytes (chunk ∷ rest) = chunk ++ all_bytes rest

take-full : (n : ℕ) (xs ys : Text) → n ≤ length xs → take n (xs ++ ys) ≡ take n xs
take-full zero xs ys h = refl
take-full (suc n) [] ys h = absurd (omega arith)
take-full (suc n) (x ∷ xs) ys h = ap (◌∷◌ x) (take-full n xs ys (omega arith))

take-past : (n m : ℕ) (xs ys : Text) → n ≡ length xs + m → take n (xs ++ ys) ≡ xs ++ take m ys
take-past n m [] ys h = ap (λ k. take k ys) (omega arith)
take-past zero m (x ∷ xs) ys h = absurd (omega arith)
take-past (suc n) m (x ∷ xs) ys h = ap (◌∷◌ x) (take-past n m xs ys (omega arith))

-- The buffer holds the first bytes of a log, up to its limit, and knows whether the log has filled it.
pub record Holds (limit : ℕ) (log : Text) (b : Buffer) : Type 0 where
  pub limit_kept : b.limit ≡ limit
  pub first_bytes : b.bytes ≡ take limit log
  pub notices : (length log ≤ limit) ⊎ (b.exceeded ≡ true)
  pub only_full : (b.exceeded ≡ false) ⊎ (limit ≤ length log)

length-first :
    (limit : ℕ) (log : Text) (b : Buffer)
    → Holds limit log b
    → length b.bytes ≡ min limit (length log)
length-first limit log b h = rw h.first_bytes (length-take limit log)

take-all-nil : (limit : ℕ) → take {A = ℕ} limit [] ≡ []
take-all-nil zero = refl
take-all-nil (suc n) = refl

new_buffer-Holds : (limit : ℕ) → Holds limit [] (new_buffer limit)
new_buffer-Holds limit = record {
  limit_kept = refl;
  first_bytes = sym (take-all-nil limit);
  notices = inl (omega arith);
  only_full = inl refl;
}

module _ (limit : ℕ) (log chunk : Text) (b : Buffer) (h : Holds limit log b) where
  write-full : limit ≤ length log → Holds limit (log ++ chunk) (record b { exceeded = true })
  write-full full = record {
    limit_kept = h.limit_kept;
    first_bytes = h.first_bytes ∙ sym (take-full limit log chunk full);
    notices = inr refl;
    only_full = inr (omega (arith, length-append log chunk));
  }

  write-cut :
      (m : ℕ)
      → limit ≡ length log + m
      → m < length chunk
      → Holds limit (log ++ chunk) (record b { bytes = b.bytes ++ take m chunk; exceeded = true })
  write-cut m e lt = record {
    limit_kept = h.limit_kept;
    first_bytes =
        ap (λ bytes. bytes ++ take m chunk) (h.first_bytes ∙ take-all limit log (omega arith))
        ∙ sym (take-past limit m log chunk e);
    notices = inr refl;
    only_full = inr (omega (arith, length-append log chunk));
  }

  write-fits :
      (m : ℕ)
      → limit ≡ length log + m
      → length chunk ≤ m
      → Holds limit (log ++ chunk) (record b { bytes = b.bytes ++ chunk })
  write-fits m e le = record {
    limit_kept = h.limit_kept;
    first_bytes =
        ap (λ bytes. bytes ++ chunk) (h.first_bytes ∙ take-all limit log (omega arith))
        ∙ (ap (◌++◌ log) (sym (take-all m chunk le)) ∙ sym (take-past limit m log chunk e));
    notices = inl (omega (arith, length-append log chunk));
    only_full = elim h.only_full [
      | inl e ↦ inl e
      | inr k ↦ inr (omega (arith, length-append log chunk))
    ];
  }

  write_some-Holds :
      (m : ℕ) → m ≡ limit - length log → Holds limit (log ++ chunk) (write_some m chunk b).buffer
  unfolding write_some
  write_some-Holds m e = elim (Bool-cases (leb m 0)) [
    | inl full ↦ rw full (write-full (ground arith))
    | inr room ↦ rw room (elim (Bool-cases (ltb m (length chunk))) [
      | inl cut ↦ rw cut (write-cut m (ground arith) (ground arith))
      | inr fits ↦ rw fits (write-fits m (ground arith) (ground arith))
    ])
  ]

  write-Holds : Holds limit (log ++ chunk) (write chunk b).buffer
  unfolding write
  write-Holds =
      write_some-Holds (b.limit - length b.bytes)
        (omega (arith, length-first limit log b h, h.limit_kept))

write_all-Holds :
    (limit : ℕ) (chunks : List Text) (log : Text) (b : Buffer)
    → Holds limit log b
    → Holds limit (log ++ all_bytes chunks) (write_all chunks b)
unfolding write_all
write_all-Holds limit [] log b h = rw (append-nil log) h
write_all-Holds limit (chunk ∷ rest) log b h = rw (← append_assoc log chunk (all_bytes rest)) (
    write_all-Holds limit rest (log ++ chunk) (write chunk b).buffer
      (write-Holds limit log chunk b h))

-- After any writes on a new buffer, failed ones among them, it holds the first bytes of all that was
-- written, up to its limit; if more was written it says so, and it never says so before it is full.
pub buffer_keeps :
    (limit : ℕ) (chunks : List Text)
    → let b = write_all chunks (new_buffer limit) in
      let log = all_bytes chunks in
      (b.bytes ≡ take limit log)
      × ((length log ≤ limit) ⊎ (b.exceeded ≡ true))
      × ((b.exceeded ≡ false) ⊎ (limit ≤ length log))
buffer_keeps limit chunks =
    let h = write_all-Holds limit chunks [] (new_buffer limit) (new_buffer-Holds limit) in
    (h.first_bytes, h.notices, h.only_full)
