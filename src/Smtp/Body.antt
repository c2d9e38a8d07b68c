-- ===== src/Smtp/Body.antt =====
-- The body of a message on its way through DATA (crates/bridge/src/smtp/mod.rs).
use tutabridge.Prelude.{
  ℕ, ◌+◌, ◌≡◌, refl, ◌∙◌, Bool, true, false, List, [], ◌∷◌, ◌++◌, append-nil, append_assoc, arith,
  map, all, ltb, leb, ◌==◌, if◌then◌else◌, Bool-cases, inl, inr,
}
use tutabridge.Prelude.Text.{Text, codes, same_text, starts_with, trim_end, len, len-append}
use tutabridge.Smtp.Server.{
  Setup, ParsedMessage, is_quitting, Connection, SmtpState, receiving, no_step, unstuff, data_line,
  end_of_data, on_data, on_line, handle_connection, with_envelope, ReadLine, written,
}

-- What a client sends for a line of the message (RFC 5321, 4.5.2).
unfoldable pub stuff : Text → Text
stuff line = if starts_with line (codes ".") then b'.' ∷ line else line

unstuff-stuff : (line : Text) → unstuff (stuff line) ≡ line
unfolding stuff starts_with
unstuff-stuff [] = refl
unstuff-stuff (a ∷ []) = ground arith
unstuff-stuff (a ∷ b ∷ s) = ground arith

unfoldable pub joined : List Text → Text
joined [] = []
joined (line ∷ lines) = line ++ joined lines

module _ (white : ℕ → Bool) (dot : white b'.' ≡ false) where
  trim_end-dot : (s : Text) → trim_end white (b'.' ∷ s) ≡ b'.' ∷ trim_end white s
  unfolding trim_end
  trim_end-dot s = ground arith

  -- No line of a message looks like the terminator.
  no_terminator : (line : Text) → same_text (trim_end white (stuff line)) (codes ".") ≡ false
  unfolding stuff starts_with same_text
  no_terminator [] = unfold trim_end in refl
  no_terminator (a ∷ s) = elim (Bool-cases (a == b'.')) [
    | inl e ↦ ground (arith, trim_end-dot (a ∷ s), trim_end-dot s)
    | inr e ↦ unfold trim_end in ground arith
  ]

  terminator :
      white 13 ≡ true
      → white 10 ≡ true
      → same_text (trim_end white (codes ".\r\n")) (codes ".") ≡ true
  unfolding trim_end same_text
  terminator cr lf = ground arith

module _ {B : Type 0} (setup : Setup B) where
  -- A connection within DATA.
  abbrev pub within : SmtpState → Text → Bool → Bool → Connection
  within s buf large authenticated = record {
    state = s;
    data_buf = buf;
    in_data = true;
    data_too_large = large;
    auth_step = no_step;
    authenticated = authenticated;
  }

  module _ (dot : setup.white b'.' ≡ false) (cr : setup.white 13 ≡ true)
      (lf : setup.white 10 ≡ true) (from : Text) (to : List Text) (authenticated : Bool) where
    last_round :
        (buf : Text) (large : Bool)
        → on_line setup (codes ".\r\n") (within (receiving from to) buf large authenticated)
          ≡ end_of_data setup (within (receiving from to) buf large authenticated)
    unfolding on_line on_data
    last_round buf large = ground (arith, terminator setup.white dot cr lf)

    data_round :
        (line buf : Text) (large : Bool)
        → on_line setup (stuff line) (within (receiving from to) buf large authenticated) ≡ record {
          connection =
              data_line setup (stuff line) (within (receiving from to) buf large authenticated);
          replies = [];
          submitted = [];
        }
    unfolding on_line on_data
    data_round line buf large = ground (arith, no_terminator setup.white dot line)

    abbrev pub fits : Text → Bool
    fits text = leb (len text) setup.limits.max_message_bytes

    abbrev pub sent : Text → List (ParsedMessage B)
    sent text = with_envelope setup (setup.parse_rfc2822 text) to ∷ []

    abbrev all_of : List Text → List ReadLine
    all_of lines = map (λ l. written (stuff l)) lines ++ written (codes ".\r\n") ∷ []

    -- A line that the reader takes.
    abbrev pub is_short : Text → Bool
    is_short line = leb (len line) setup.limits.max_line_bytes

    step_quiet :
        (line : Text) (lines : List ReadLine) (c d : Connection)
        → is_short line ≡ true
        → on_line setup line c ≡ record { connection = d; replies = []; submitted = [] }
        → d.state ≡ receiving from to
        → (handle_connection setup (written line ∷ lines) c).submitted
          ≡ (handle_connection setup lines d).submitted
    unfolding handle_connection
    step_quiet line lines c d short e s =
        let fits_line : ltb setup.limits.max_line_bytes (len line) ≡ false =
          ground (arith, short) in
        rw (fits_line, e) (rw (s, is_quitting) refl)

    module _ (short_end : is_short (codes ".\r\n") ≡ true) where
      short_cap : ltb setup.limits.max_line_bytes (len (codes ".\r\n")) ≡ false
      short_cap = ground (arith, short_end)

      too_large :
          (lines : List Text) (buf : Text)
          → all (λ l. is_short (stuff l)) lines ≡ true
          → (handle_connection setup
              (all_of lines)
              (within (receiving from to) buf true authenticated)).submitted
            ≡ []
      unfolding data_line
      too_large [] buf o =
          unfold handle_connection end_of_data in rw (short_cap, last_round buf true) refl
      too_large (line ∷ lines) buf o =
          step_quiet (stuff line) (all_of lines) _
            (within (receiving from to) buf true authenticated) (ground (arith, o))
            (data_round line buf true) refl
          ∙ too_large lines buf (ground (arith, o))

      kept :
          (line buf : Text)
          → data_line setup (stuff line) (within (receiving from to) buf false authenticated) ≡ (
              if ltb setup.limits.max_message_bytes (len buf + len line)
              then within (receiving from to) [] true authenticated
              else within (receiving from to) (buf ++ line) false authenticated)
      unfolding data_line
      kept line buf = rw (unstuff-stuff line) refl

      received :
          (lines : List Text) (buf : Text)
          → all (λ l. is_short (stuff l)) lines ≡ true
          → fits buf ≡ true
          → (handle_connection setup
              (all_of lines)
              (within (receiving from to) buf false authenticated)).submitted
            ≡ (if fits (buf ++ joined lines) then sent (buf ++ joined lines) else [])
      unfolding joined
      received [] buf o h =
          unfold handle_connection end_of_data in
          rw (short_cap, last_round buf false) (rw (append-nil buf) (ground arith))
      received (line ∷ lines) buf o h =
          elim (Bool-cases (ltb setup.limits.max_message_bytes (len buf + len line))) [
            | inl e ↦
                step_quiet (stuff line) (all_of lines) _
                  (within (receiving from to) [] true authenticated) (ground (arith, o))
                  (data_round line buf false ∙ (rw (kept line buf, e) refl)) refl
                ∙ too_large lines [] (ground (arith, o))
                ∙ ground
                    (arith, len-append buf (line ++ joined lines), len-append line (joined lines))
            | inr e ↦
                step_quiet (stuff line) (all_of lines) _
                  (within (receiving from to) (buf ++ line) false authenticated) (ground (arith, o))
                  (data_round line buf false ∙ (rw (kept line buf, e) refl)) refl
                ∙ received lines (buf ++ line) (ground (arith, o))
                    (ground (arith, len-append buf line))
                ∙ (rw (append_assoc buf line (joined lines)) refl)
          ]

      -- A client within DATA that sends the lines of a message, a dot put before each that starts with
      -- one, and then the terminator, has the parser given exactly these lines, and the backend the
      -- message with the recipients of the envelope, if the lines together fit the cap; otherwise nothing
      -- is sent. White space is what the tables say, a dot none of it, and both ends of a line are.
      pub handle_connection-message :
          (lines : List Text)
          → all (λ l. is_short (stuff l)) lines ≡ true
          → (handle_connection setup
              (all_of lines)
              (within (receiving from to) [] false authenticated)).submitted
            ≡ (if fits (joined lines) then sent (joined lines) else [])
      handle_connection-message lines o = received lines [] o (unfold len in ground arith)
