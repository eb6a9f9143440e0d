-- ===== src/Btmp/Read/Rounds.antt =====
-- The rounds of read_attempts over a file that grows, against one read of the whole file.
use mathlib.Core.List.{append_assoc, append-nil}
use xdp_firewall.Prelude.{
  ℕ, ◌+◌, ◌*◌, ◌/◌, ◌≤◌, ◌<◌, ◌≡◌, refl, sym, ap, ◌∙◌, true, Option, none, some, List, [], ◌∷◌,
  ◌++◌, arith, drop, length, length-append, Result, ok, err,
}
use xdp_firewall.Prelude.Slices.{length-drop, drop-append, drop-drop}
use xdp_firewall.Prelude.Int.{ℤ}
use xdp_firewall.Btmp.Record.{FailedAttempt}
use xdp_firewall.Btmp.Read.{ReadCursor, BtmpFile, start_of, read_attempts}
use xdp_firewall.Btmp.Read.Incremental.{
  attempts_of as attempts_in, attempts_of-append, read_from-eq,
}

-- What is appended before the length is taken, and between that and the read.
abbrev pub Growth : Type 0
Growth = List ℕ × List ℕ

abbrev pub grown : List ℕ → List Growth → List ℕ
grown content [] = content
grown content ((early, late) ∷ rounds) = grown ((content ++ early) ++ late) rounds

-- the file of a round
abbrev pub file_of : ℕ → List ℕ → Growth → BtmpFile
file_of inode content (early, late) = record {
  inode = inode;
  is_file = true;
  len = length (content ++ early);
  bytes = (content ++ early) ++ late;
}

module _ {DateTime : Type 0} (from_timestamp : ℤ → ℕ → Option DateTime) where
  abbrev attempts_of : List ℕ → List (FailedAttempt DateTime)
  attempts_of xs = attempts_in from_timestamp xs

  module _ (inode : ℕ) where
    abbrev pub after_read :
        (ReadCursor → List (FailedAttempt DateTime) × Option ReadCursor)
        → Option ReadCursor
        → Result (List (FailedAttempt DateTime) × ReadCursor)
        → List (FailedAttempt DateTime) × Option ReadCursor
    after_read rest cursor (err e) = ([], cursor)
    after_read rest cursor (ok (attempts, next)) = (attempts ++ (rest next).0, (rest next).1)

    -- Rounds of reading, each with the cursor of the one before; an error ends them.
    unfoldable pub read_rounds :
        List ℕ → Option ReadCursor → List Growth → List (FailedAttempt DateTime) × Option ReadCursor
    read_rounds content cursor [] = ([], cursor)
    read_rounds content cursor ((early, late) ∷ rounds) =
        after_read (λ next. read_rounds ((content ++ early) ++ late) (some next) rounds) cursor
          (read_attempts from_timestamp (some (file_of inode content (early, late))) cursor)

    abbrev cursor_at : ℕ → ReadCursor
    cursor_at offset = record { inode = inode; offset = offset }

    start_of-cursor_at :
        (content : List ℕ) (g : Growth) (offset : ℕ)
        → offset ≤ length content
        → start_of (some (cursor_at offset)) (file_of inode content g) ≡ offset
    unfolding start_of
    start_of-cursor_at content (early, late) offset h =
        ground (arith, length-append {0} content early)

    read_round :
        (content : List ℕ) (g : Growth) (offset : ℕ)
        → offset ≤ length content
        → read_attempts from_timestamp (some (file_of inode content g)) (some (cursor_at offset))
          ≡ ok (
            attempts_of (drop offset ((content ++ g.0) ++ g.1)),
            cursor_at (offset + length (drop offset ((content ++ g.0) ++ g.1)) / 384 * 384),
          )
    unfolding read_attempts
    read_round content g offset h =
        rw (start_of-cursor_at content g offset h)
          (ap ok (read_from-eq from_timestamp inode offset _))

    -- what one read from `offset` on leaves
    abbrev read_once : ℕ → List ℕ → List (FailedAttempt DateTime) × Option ReadCursor
    read_once offset content = (
      attempts_of (drop offset content),
      some (cursor_at (offset + length (drop offset content) / 384 * 384)),
    )

    read_once-partial :
        (offset : ℕ) (content : List ℕ)
        → length (drop offset content) < 384
        → ([], some (cursor_at offset)) ≡ read_once offset content
    read_once-partial offset content h =
        let none_whole : length (drop offset content) / 384 ≡ 0 = omega arith in
        let same : offset + 0 * 384 ≡ offset = omega arith in rw (none_whole, same)

    -- A read, and one of what is appended, are one read.
    read_once-grown :
        (offset : ℕ) (content more : List ℕ)
        → offset ≤ length content
        → (
          attempts_of (drop offset content)
              ++ (read_once
                  (offset + length (drop offset content) / 384 * 384)
                  (content ++ more)).0,
          (read_once (offset + length (drop offset content) / 384 * 384) (content ++ more)).1,
        )
          ≡ read_once offset (content ++ more)
    read_once-grown offset content more h =
        let left = drop offset content in
        let q : ℕ = length left / 384 in
        let whole : drop offset (content ++ more) ≡ left ++ more =
          drop-append offset content more h in
        let tail : drop (offset + q * 384) (content ++ more) ≡ drop (q * 384) left ++ more =
          sym (drop-drop (q * 384) offset (content ++ more))
          ∙ ap (drop (q * 384)) whole
          ∙ drop-append (q * 384) left more (omega arith) in
        let attempts : attempts_of left ++ attempts_of (drop (q * 384) left ++ more)
            ≡ attempts_of (left ++ more) =
          sym (attempts_of-append from_timestamp q left more refl) in
        let place : offset + q * 384 + length (drop (q * 384) left ++ more) / 384 * 384
            ≡ offset + length (left ++ more) / 384 * 384 =
          omega (
            arith,
            length-append {0} (drop (q * 384) left) more,
            length-append {0} left more,
            length-drop {0} (q * 384) left,
          ) in
        rw (tail, whole) (λ i. (attempts i, some (cursor_at (place i))))

    regroup :
        (content early late more : List ℕ)
        → ((content ++ early) ++ late) ++ more ≡ content ++ ((early ++ late) ++ more)
    regroup content early late more = simp (append_assoc)

    grown-append :
        (content : List ℕ) (rounds : List Growth)
        → (more : List ℕ) × (grown content rounds ≡ content ++ more)
    grown-append content [] = ([], sym (append-nil content))
    grown-append content ((early, late) ∷ rounds) =
        let (more, e) = grown-append ((content ++ early) ++ late) rounds in
        ((early ++ late) ++ more, e ∙ regroup content early late more)

    read_rounds-cons :
        (content : List ℕ) (g : Growth) (rounds : List Growth) (offset : ℕ)
        → offset ≤ length content
        → read_rounds content (some (cursor_at offset)) (g ∷ rounds) ≡ (
          attempts_of (drop offset ((content ++ g.0) ++ g.1))
              ++ (read_rounds
                  ((content ++ g.0) ++ g.1)
                  (some (
                    cursor_at
                      (offset + length (drop offset ((content ++ g.0) ++ g.1)) / 384 * 384)))
                  rounds).0,
          (read_rounds
              ((content ++ g.0) ++ g.1)
              (some
                (cursor_at (offset + length (drop offset ((content ++ g.0) ++ g.1)) / 384 * 384)))
              rounds).1,
        )
    unfolding read_rounds
    read_rounds-cons content (early, late) rounds offset h =
        rw (read_round content (early, late) offset h)

    read_rounds-nil :
        (content : List ℕ) (offset : ℕ)
        → read_rounds content (some (cursor_at offset)) [] ≡ ([], some (cursor_at offset))
    unfolding read_rounds
    read_rounds-nil content offset = refl

    rounds-read_once :
        (content : List ℕ) (rounds : List Growth) (offset : ℕ)
        → offset ≤ length content
        → length (drop offset content) < 384
        → read_rounds content (some (cursor_at offset)) rounds
          ≡ read_once offset (grown content rounds)
    rounds-read_once content [] offset h k =
        read_rounds-nil content offset ∙ read_once-partial offset content k
    rounds-read_once content (g ∷ rounds) offset h k =
        let content' = (content ++ g.0) ++ g.1 in
        let offset' : ℕ = offset + length (drop offset content') / 384 * 384 in
        let grows : length content ≤ length content' =
          omega (arith, length-append {0} (content ++ g.0) g.1, length-append {0} content g.0) in
        let ih =
          rounds-read_once content' rounds offset' (omega (arith, length-drop {0} offset content'))
            (omega (arith, length-drop {0} offset content', length-drop {0} offset' content')) in
        let (more, e) = grown-append content' rounds in
        read_rounds-cons content g rounds offset h
        ∙ ap
            (λ (r : List (FailedAttempt DateTime) × Option ReadCursor).
              (attempts_of (drop offset content') ++ r.0, r.1))
            (ih ∙ ap (read_once offset') e)
        ∙ read_once-grown offset content' more (omega arith)
        ∙ ap (read_once offset) (sym e)

    start_of-none :
        (content : List ℕ) (g : Growth) (rounds : List Growth)
        → read_rounds content none (g ∷ rounds)
          ≡ read_rounds content (some (cursor_at 0)) (g ∷ rounds)
    unfolding read_rounds read_attempts
    start_of-none content (early, late) rounds =
        rw (start_of-cursor_at content (early, late) 0 (omega arith))

    read_whole :
        (xs : List ℕ)
        → read_attempts from_timestamp (some (file_of inode [] (xs, []))) none
          ≡ ok (attempts_of xs, cursor_at (0 + length xs / 384 * 384))
    unfolding read_attempts
    read_whole xs = rw (append-nil xs, read_from-eq from_timestamp inode 0 xs)

    -- However a file grows from round to round, also while it is read, the rounds that start without
    -- a cursor return together what one read of the whole file returns, each attempt once and in
    -- order, and end with the cursor of that read.
    pub rounds_read_everything :
        (g : Growth) (rounds : List Growth)
        → (next : ReadCursor) × (read_attempts from_timestamp
              (some (file_of inode [] (grown [] (g ∷ rounds), [])))
              none
            ≡ ok ((read_rounds [] none (g ∷ rounds)).0, next))
          × ((read_rounds [] none (g ∷ rounds)).1 ≡ some next)
    rounds_read_everything g rounds =
        let content = grown [] (g ∷ rounds) in
        let e =
          start_of-none [] g rounds
          ∙ rounds-read_once [] (g ∷ rounds) 0 (omega arith) (omega arith) in
        (
          cursor_at (0 + length content / 384 * 384),
          read_whole content
              ∙ ap
                  (λ (r : List (FailedAttempt DateTime) × Option ReadCursor).
                    ok (r.0, cursor_at (0 + length content / 384 * 384)))
                  (sym e),
          ap (λ (r : List (FailedAttempt DateTime) × Option ReadCursor). r.1) e,
        )
