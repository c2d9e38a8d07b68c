-- ===== src/Mime/AddressLists.antt =====
-- Lists of addresses, written and read back (crates/bridge/src/mail/rfc2822.rs and parser.rs).
use tutabridge.Prelude.{
  ℕ, ◌≡◌, refl, ap, ◌∙◌, sym, true, false, not, ◌&&◌, List, [], ◌∷◌, ◌++◌, map, keep, all, arith,
  Bool-cases, inl, inr, append_assoc, append-nil,
}
use tutabridge.Prelude.Text.{Text, codes, push, is_empty, trim, trim_start}
use tutabridge.Wire.{join}
use tutabridge.Mime.Library.{Library}
use tutabridge.Mime.Words.{encode_header_value}
use tutabridge.Mime.Addresses.{
  delimits, cleaned, quoted, needs_quoting, format_name_and_address, entries, parse_address_single,
  parse_address_list,
}
use tutabridge.Mime.Entries.{
  bare, onto, onto-first, entries-format, cleaned-bare, all-keep, format_bare, format_quoted,
  format_encoded,
}
use tutabridge.Mime.Trims.{
  split_at_last-bare, split_at_last-append, split_once-angle, is_empty-append, angles, black,
  trim-all, trim-pad, trim-angles,
}

-- The list of a header.
abbrev pub address_list : Library → List (Text × Text) → Text
address_list lib ms =
    join (codes ", ") (map {A = Text × Text} (λ m. format_name_and_address lib m.0 m.1) ms)

module _ (lib : Library) (w1 : lib.white b'<' ≡ false) (w2 : lib.white b'>' ≡ false)
    (alphabet : (bs : List ℕ) → all bare (lib.encode64 bs) ≡ true) where
  -- An entry of a list whose address is to be read.
  single-angles :
      (x a : Text)
      → all bare a ≡ true
      → all (black lib.white) a ≡ true
      → (parse_address_single lib (trim lib.white (x ++ angles a))).1 ≡ a
  unfolding parse_address_single
  single-angles x a h k =
      rw
        (
          trim-angles lib.white x a w1 w2,
          trim-angles lib.white (trim_start lib.white x) a w1 w2,
          split_at_last-append (trim_start lib.white (trim_start lib.white x)) a h,
          split_once-angle a h,
        )
        (trim-all lib.white a k)

  single-bare :
      (a : Text)
      → all bare a ≡ true
      → all (black lib.white) a ≡ true
      → (parse_address_single lib (trim lib.white a)).1 ≡ a
  unfolding parse_address_single
  single-bare a h k =
      rw (trim-all lib.white a k, trim-all lib.white a k, split_at_last-bare a h) refl

  abbrev clean : Text × Text → Text
  clean m = cleaned lib m.1

  abbrev format : Text × Text → Text
  format m = format_name_and_address lib m.0 m.1

  -- What the reader makes of one entry.
  abbrev read : List Text → List (Text × Text)
  read es = map (parse_address_single lib) (keep (λ e. not (is_empty e)) (map (trim lib.white) es))

  abbrev addresses : List (Text × Text) → List Text
  addresses ms = map {A = Text × Text} (λ m. m.1) ms

  read_one :
      (e a : Text) (es : List Text)
      → is_empty (trim lib.white e) ≡ false
      → (parse_address_single lib (trim lib.white e)).1 ≡ a
      → addresses (read (e ∷ es)) ≡ a ∷ addresses (read es)
  read_one e a es h k = rw h (ap (λ x. x ∷ addresses (read es)) k)

  cleaned-black : (address : Text) → all (black lib.white) (cleaned lib address) ≡ true
  cleaned-black address =
      all-keep (black lib.white) (λ c. not (lib.white c) && not (delimits c)) (λ c h. ground arith)
        address

  read_angles :
      (x address : Text) (es : List Text)
      → addresses (read ((x ++ angles (cleaned lib address)) ∷ es))
        ≡ cleaned lib address ∷ addresses (read es)
  read_angles x address es =
      read_one (x ++ angles a) a es
        (ap is_empty (trim-angles lib.white x a w1 w2)
          ∙ is_empty-append (trim_start lib.white x) b'<' (a ++ b'>' ∷ []))
        (single-angles x a (cleaned-bare lib address) (cleaned-black address))
    where
      a : Text
      a = cleaned lib address

  read_bare :
      (pad address : Text) (es : List Text)
      → all lib.white pad ≡ true
      → is_empty (cleaned lib address) ≡ false
      → addresses (read ((pad ++ cleaned lib address) ∷ es))
        ≡ cleaned lib address ∷ addresses (read es)
  read_bare pad address es h k =
      read_one (pad ++ a) a es
        (ap is_empty (trim-pad lib.white pad a h (cleaned-black address) k) ∙ k)
        (ap (λ x. (parse_address_single lib x).1)
            (trim-pad lib.white pad a h (cleaned-black address) k
              ∙ sym (trim-all lib.white a (cleaned-black address)))
          ∙ single-bare a (cleaned-bare lib address) (cleaned-black address))
    where
      a : Text
      a = cleaned lib address

  padded : (pad n y : Text) → pad ++ (n ++ b' ' ∷ y) ≡ ((pad ++ n) ++ b' ' ∷ []) ++ y
  padded pad n y = sym (append_assoc pad n (b' ' ∷ y)) ∙ sym (append_assoc (pad ++ n) (b' ' ∷ []) y)

  read_entry :
      (pad name address : Text) (es : List Text)
      → all lib.white pad ≡ true
      → is_empty (cleaned lib address) ≡ false
      → addresses (read ((pad ++ format_name_and_address lib name address) ∷ es))
        ≡ cleaned lib address ∷ addresses (read es)
  read_entry pad name address es h k = elim (Bool-cases (is_empty name)) [
    | inl p ↦ rw (format_bare lib alphabet name address p) (read_bare pad address es h k)
    | inr p ↦ elim (Bool-cases (needs_quoting name)) [
      | inl q ↦
          rw
            (
              format_quoted lib alphabet name address p q,
              padded pad (quoted name) (angles (cleaned lib address)),
            )
            (read_angles ((pad ++ quoted name) ++ b' ' ∷ []) address es)
      | inr q ↦
          rw
            (
              format_encoded lib alphabet name address p q,
              padded pad (encode_header_value lib name) (angles (cleaned lib address)),
            )
            (read_angles ((pad ++ encode_header_value lib name) ++ b' ' ∷ []) address es)
    ]
  ]

  comma :
      (t : Text)
      → entries 0 false false (b',' ∷ b' ' ∷ t) ≡ [] ∷ push b' ' (entries 0 false false t)
  unfolding entries
  comma t = refl

  at_end : entries 0 false false [] ≡ [] ∷ []
  unfolding entries
  at_end = refl

  first_entry : (m : Text) (es : List Text) → onto m ([] ∷ es) ≡ m ∷ es
  first_entry m es = onto-first m [] es ∙ ap (λ x. x ∷ es) (append-nil m)

  abbrev spaced : List (Text × Text) → List Text
  spaced ms = map {A = Text × Text} (λ m. b' ' ∷ format m) ms

  entries-join :
      (m : Text × Text) (ms : List (Text × Text))
      → entries 0 false false (address_list lib (m ∷ ms)) ≡ format m ∷ spaced ms
  unfolding join
  entries-join m [] =
      ap (entries 0 false false) (sym (append-nil (format m)))
      ∙ (entries-format lib alphabet m.0 m.1 []
          ∙ (ap (onto (format m)) at_end ∙ first_entry (format m) []))
  entries-join m (n ∷ ms) =
      entries-format lib alphabet m.0 m.1 (codes ", " ++ address_list lib (n ∷ ms))
      ∙ (ap (onto (format m))
            (comma (address_list lib (n ∷ ms)) ∙ ap (λ es. [] ∷ push b' ' es) (entries-join n ms))
          ∙ first_entry (format m) (spaced (n ∷ ms)))

  read_spaced :
      (ms : List (Text × Text))
      → lib.white b' ' ≡ true
      → all (λ m. not (is_empty (clean m))) ms ≡ true
      → addresses (read (spaced ms)) ≡ map clean ms
  read_spaced [] w h = refl
  read_spaced (m ∷ ms) w h =
      read_entry (b' ' ∷ []) m.0 m.1 (spaced ms) (ground arith) (ground arith)
      ∙ ap (λ xs. clean m ∷ xs) (read_spaced ms w (ground arith))

  -- The address list that is written for mailboxes, none of whose addresses is blank once it is
  -- cleaned, is read back as those addresses, one entry each, whatever their names and addresses
  -- hold, if a space is white space, `<` and `>` are not, and base64 writes no delimiter.
  pub parse_address_list-address_list :
      (ms : List (Text × Text))
      → lib.white b' ' ≡ true
      → all (λ m. not (is_empty (clean m))) ms ≡ true
      → addresses (parse_address_list lib (address_list lib ms)) ≡ map clean ms
  unfolding parse_address_list join
  parse_address_list-address_list [] w h = refl
  parse_address_list-address_list (m ∷ ms) w h =
      ap (λ es. addresses (read es)) (entries-join m ms)
      ∙ (read_entry [] m.0 m.1 (spaced ms) refl (ground arith)
          ∙ ap (λ xs. clean m ∷ xs) (read_spaced ms w (ground arith)))
