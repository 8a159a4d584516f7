-- ===== src/Pdu/Feed.antt =====
-- crates/ioutgt-nvme/src/pdu.rs: what `PduDecoder::feed` makes of a stream that arrives in pieces.
use mathlib.Core.List.{append-nil, append_assoc}
use ioutgt.Base.{
  ℕ, ◌+◌, ◌-◌, ◌≤◌, ◌<◌, min, true, false, List, [], ◌++◌, ◌≡◌, refl, sym, ap, ◌∙◌, inl, inr, ◌⊎◌,
  arith, leb, leb→le, length, take, Bool-cases, length-append, length-take, take-append,
  drop-append_lt, drop-append_ge,
}
use ioutgt.Pdu.Decode.{
  PduDecoder, DecodeState, common, rest, complete, Checked, ok, err, Fed, grab, left, filled, feed,
  feed_common, feed_rest, sized, full_header_len,
}

-- Bytes taken before, and the bytes of a later call.
abbrev pub after : ℕ → Checked ℕ → Checked ℕ
after n (ok m) = ok (n + m)
after n (err e) = err e

-- A call, and another one with more input unless the first failed.
abbrev pub continue_with : Checked ℕ → PduDecoder → List ℕ → Fed
continue_with (err e) d input = record { answer = err e; decoder = d }
continue_with (ok n) d input = record {
  answer = after n ((feed d input).answer);
  decoder = (feed d input).decoder;
}

leb-false : (a b : ℕ) → leb a b ≡ false → b < a
leb-false a b h = ground arith

length-grab :
    (d : PduDecoder) (input : List ℕ)
    → length ((grab d input).buf) ≡ length d.buf + min (d.need - length d.buf) (length input)
length-grab d input =
    length-append d.buf (take (d.need - length d.buf) input)
    ∙ ap (λ n. length d.buf + n) (length-take (d.need - length d.buf) input)

-- Input that does not fill the header is all taken.
short :
    (d : PduDecoder) (input : List ℕ)
    → filled (grab d input) ≡ false
    → length input < d.need - length d.buf
short d input h =
    omega (arith, length-grab d input, leb-false d.need (length ((grab d input).buf)) h)

long :
    (d : PduDecoder) (input : List ℕ)
    → filled (grab d input) ≡ true
    → d.need - length d.buf ≤ length input
long d input h = omega (arith, length-grab d input, leb→le d.need (length ((grab d input).buf)) h)

take_zero : (n : ℕ) (xs : List ℕ) → n ≡ 0 → take n xs ≡ []
take_zero n xs e = rw e

grab-append_filled :
    (d : PduDecoder) (xs ys : List ℕ) → filled (grab d xs) ≡ true → grab d (xs ++ ys) ≡ grab d xs
grab-append_filled d xs ys h =
    let k = d.need - length d.buf in
    let tail : take (k - length xs) ys ≡ [] =
      take_zero (k - length xs) ys (omega (arith, long d xs h)) in
    ap (λ bytes. record d { buf = d.buf ++ bytes })
      (take-append k xs ys ∙ ap (λ t. take k xs ++ t) tail ∙ append-nil (take k xs))

grab-append_short :
    (d : PduDecoder) (xs ys : List ℕ)
    → filled (grab d xs) ≡ false
    → grab d (xs ++ ys) ≡ grab (grab d xs) ys
grab-append_short d xs ys h =
    let k = d.need - length d.buf in
    ap (λ bytes. record d { buf = bytes })
      (ap (λ t. d.buf ++ t) (take-append k xs ys)
        ∙ sym (append_assoc d.buf (take k xs) (take (k - length xs) ys))
        ∙ ap (λ n. (d.buf ++ take k xs) ++ take n ys)
            (omega (arith, length-grab d xs, short d xs h)))

left-append_filled :
    (d : PduDecoder) (xs ys : List ℕ)
    → filled (grab d xs) ≡ true
    → left d (xs ++ ys) ≡ left d xs ++ ys
left-append_filled d xs ys h = drop-append_lt (d.need - length d.buf) xs ys (long d xs h)

left-append_short :
    (d : PduDecoder) (xs ys : List ℕ)
    → filled (grab d xs) ≡ false
    → left d (xs ++ ys) ≡ left (grab d xs) ys
left-append_short d xs ys h =
    drop-append_ge (d.need - length d.buf) (d.need - length ((grab d xs).buf)) xs ys
      (omega (arith, length-grab d xs, short d xs h))

-- The bytes taken in two calls are those taken in one.
consumed_add :
    (d : PduDecoder) (xs ys : List ℕ)
    → length ((grab (grab d xs) ys).buf) - length d.buf
      ≡ length ((grab d xs).buf)
        - length d.buf
        + (length ((grab (grab d xs) ys).buf) - length ((grab d xs).buf))
consumed_add d xs ys = omega (arith, length-grab d xs, length-grab (grab d xs) ys)

-- The end of a round in state `rest`, from `d` to `d'`.
unfoldable pub done : PduDecoder → PduDecoder → ℕ → DecodeState → Fed
done d d' c s = record {
  answer = ok (c + (length d'.buf - length d.buf));
  decoder = record d' { state = s };
}

pub feed_rest-filled :
    (d d' : PduDecoder) (input : List ℕ) (c : ℕ)
    → grab d input ≡ d'
    → filled d' ≡ true
    → feed_rest d input c ≡ done d d' c complete
unfolding feed_rest done
feed_rest-filled d d' input c e h =
    let h' : filled (grab d input) ≡ true = ap filled e ∙ h in
    let here : feed_rest d input c ≡ done d (grab d input) c complete = rw h' in
    here ∙ ap (λ t. done d t c complete) e

feed_rest-short :
    (d d' : PduDecoder) (input : List ℕ) (c : ℕ)
    → grab d input ≡ d'
    → filled d' ≡ false
    → feed_rest d input c ≡ done d d' c d'.state
unfolding feed_rest done
feed_rest-short d d' input c e h =
    let h' : filled (grab d input) ≡ false = ap filled e ∙ h in
    let here : feed_rest d input c ≡ done d (grab d input) c ((grab d input).state) = rw h' in
    here ∙ ap (λ t. done d t c t.state) e

feed-rest : (d : PduDecoder) (input : List ℕ) → d.state ≡ rest → feed d input ≡ feed_rest d input 0
unfolding feed
feed-rest d input e = rw e

pub feed-common :
    (d : PduDecoder) (input : List ℕ) → d.state ≡ common → feed d input ≡ feed_common d input
unfolding feed
feed-common d input e = rw e

feed-complete :
    (d : PduDecoder) (input : List ℕ)
    → d.state ≡ complete
    → feed d input ≡ record { answer = ok 0; decoder = d }
unfolding feed
feed-complete d input e = rw e

-- Two rounds in a row, as one.
done-done :
    (d : PduDecoder) (xs ys : List ℕ) (c : ℕ) (s : DecodeState)
    → done d (grab (grab d xs) ys) c s ≡ record {
      answer = ok (
          c
          + (length ((grab d xs).buf) - length d.buf)
          + (0 + (length ((grab (grab d xs) ys).buf) - length ((grab d xs).buf))));
      decoder = record (grab (grab d xs) ys) { state = s };
    }
unfolding done
done-done d xs ys c s =
    ap (λ (n : ℕ). record { answer = ok n; decoder = record (grab (grab d xs) ys) { state = s } })
      (omega (arith, consumed_add d xs ys))

feed_rest-append :
    (d : PduDecoder) (xs ys : List ℕ) (c : ℕ)
    → d.state ≡ rest
    → feed_rest d (xs ++ ys) c
      ≡ continue_with ((feed_rest d xs c).answer) ((feed_rest d xs c).decoder) ys
unfolding done
feed_rest-append d xs ys c e = elim (Bool-cases (filled (grab d xs))) [
  | inl h ↦
      rw
        (
          feed_rest-filled d (grab d xs) (xs ++ ys) c (grab-append_filled d xs ys h) h,
          feed_rest-filled d (grab d xs) xs c refl h,
          feed-complete (record (grab d xs) { state = complete }) ys refl,
        )
        (ap (λ (n : ℕ). record { answer = ok n; decoder = record (grab d xs) { state = complete } })
          (omega arith))
  | inr h ↦ elim (Bool-cases (filled (grab (grab d xs) ys))) [
    | inl k ↦
        rw
          (
            feed_rest-filled d (grab (grab d xs) ys) (xs ++ ys) c (grab-append_short d xs ys h) k,
            feed_rest-short d (grab d xs) xs c refl h,
            feed-rest (grab d xs) ys e,
            feed_rest-filled (grab d xs) (grab (grab d xs) ys) ys 0 refl k,
          )
          (done-done d xs ys c complete)
    | inr k ↦
        rw
          (
            feed_rest-short d (grab (grab d xs) ys) (xs ++ ys) c (grab-append_short d xs ys h) k,
            feed_rest-short d (grab d xs) xs c refl h,
            feed-rest (grab d xs) ys e,
            feed_rest-short (grab d xs) (grab (grab d xs) ys) ys 0 refl k,
          )
          (done-done d xs ys c d.state)
  ]
]

-- A round in state `common`, by what the length of the header is.
pub feed_common-filled :
    (d d' : PduDecoder) (input : List ℕ)
    → grab d input ≡ d'
    → filled d' ≡ true
    → feed_common d input
      ≡ sized d' (left d input) (length d'.buf - length d.buf) (full_header_len d')
unfolding feed_common
feed_common-filled d d' input e h =
    let h' : filled (grab d input) ≡ true = ap filled e ∙ h in
    let here : feed_common d input
        ≡ sized (grab d input) (left d input) (length ((grab d input).buf) - length d.buf)
            (full_header_len (grab d input)) =
      rw h' in
    here ∙ ap (λ t. sized t (left d input) (length t.buf - length d.buf) (full_header_len t)) e

feed_common-short :
    (d d' : PduDecoder) (input : List ℕ)
    → grab d input ≡ d'
    → filled d' ≡ false
    → feed_common d input ≡ done d d' 0 d'.state
unfolding feed_common done
feed_common-short d d' input e h =
    let h' : filled (grab d input) ≡ false = ap filled e ∙ h in
    let here : feed_common d input ≡ done d (grab d input) 0 ((grab d input).state) =
      rw h' (ap (λ (n : ℕ). record { answer = ok n; decoder = grab d input }) (omega arith)) in
    here ∙ ap (λ t. done d t 0 t.state) e

sized-append :
    (d : PduDecoder) (xs ys : List ℕ) (n : ℕ) (len : Checked ℕ)
    → sized d (xs ++ ys) n len
      ≡ continue_with ((sized d xs n len).answer) ((sized d xs n len).decoder) ys
sized-append d xs ys n (err e) = refl
sized-append d xs ys n (ok need) =
    feed_rest-append (record d { need = need; state = rest }) xs ys n refl

-- What a second call takes, when the first did not fill the header.
sized-after :
    (d : PduDecoder) (input : List ℕ) (k n m : ℕ) (len : Checked ℕ)
    → k ≡ n + m
    → sized d input k len ≡ record {
      answer = after n ((sized d input m len).answer);
      decoder = (sized d input m len).decoder;
    }
unfolding feed_rest
sized-after d input k n m (err er) e = refl
sized-after d input k n m (ok need) e =
    elim (Bool-cases (filled (grab (record d { need = need; state = rest }) input))) [
      | inl h ↦ rw h (
          ap
            (λ (x : ℕ). record {
              answer = ok x;
              decoder = record (grab (record d { need = need; state = rest }) input) {
                state = complete;
              };
            })
            (omega arith))
      | inr h ↦ rw h (
          ap
            (λ (x : ℕ). record {
              answer = ok x;
              decoder = grab (record d { need = need; state = rest }) input;
            })
            (omega arith))
    ]

feed_common-append :
    (d : PduDecoder) (xs ys : List ℕ)
    → d.state ≡ common
    → feed_common d (xs ++ ys)
      ≡ continue_with ((feed_common d xs).answer) ((feed_common d xs).decoder) ys
unfolding done
feed_common-append d xs ys e = elim (Bool-cases (filled (grab d xs))) [
  | inl h ↦
      rw
        (
          feed_common-filled d (grab d xs) (xs ++ ys) (grab-append_filled d xs ys h) h,
          feed_common-filled d (grab d xs) xs refl h,
          left-append_filled d xs ys h,
        )
        (sized-append (grab d xs) (left d xs) ys (length ((grab d xs).buf) - length d.buf)
          (full_header_len (grab d xs)))
  | inr h ↦ elim (Bool-cases (filled (grab (grab d xs) ys))) [
    | inl k ↦
        rw
          (
            feed_common-filled d (grab (grab d xs) ys) (xs ++ ys) (grab-append_short d xs ys h) k,
            feed_common-short d (grab d xs) xs refl h,
            feed-common (grab d xs) ys e,
            feed_common-filled (grab d xs) (grab (grab d xs) ys) ys refl k,
            left-append_short d xs ys h,
          )
          (sized-after (grab (grab d xs) ys) (left (grab d xs) ys)
            (length ((grab (grab d xs) ys).buf) - length d.buf)
            (0 + (length ((grab d xs).buf) - length d.buf))
            (length ((grab (grab d xs) ys).buf) - length ((grab d xs).buf))
            (full_header_len (grab (grab d xs) ys)) (omega (arith, consumed_add d xs ys)))
    | inr k ↦
        rw
          (
            feed_common-short d (grab (grab d xs) ys) (xs ++ ys) (grab-append_short d xs ys h) k,
            feed_common-short d (grab d xs) xs refl h,
            feed-common (grab d xs) ys e,
            feed_common-short (grab d xs) (grab (grab d xs) ys) ys refl k,
          )
          (done-done d xs ys 0 d.state)
  ]
]

state-cases : (s : DecodeState) → (s ≡ common) ⊎ (s ≡ rest) ⊎ (s ≡ complete)
state-cases common = inl refl
state-cases rest = inr (inl refl)
state-cases complete = inr (inr refl)

-- Feeding a stream in two pieces takes the same bytes, and leaves the same decoder and the same error,
-- as feeding it at once; after an error the second piece is not fed.
pub feed-append :
    (d : PduDecoder) (xs ys : List ℕ)
    → feed d (xs ++ ys) ≡ continue_with ((feed d xs).answer) ((feed d xs).decoder) ys
feed-append d xs ys = elim (state-cases d.state) [
  | inl e ↦ rw (feed-common d (xs ++ ys) e, feed-common d xs e) (feed_common-append d xs ys e)
  | inr (inl e) ↦ rw (feed-rest d (xs ++ ys) e, feed-rest d xs e) (feed_rest-append d xs ys 0 e)
  | inr (inr e) ↦ rw (feed-complete d (xs ++ ys) e, feed-complete d xs e, feed-complete d ys e)
]
