-- ===== src/Client/Pieces.antt =====
-- client/network.c: a response that arrives in several pieces.
use school_meals.Base.{
  ◌+◌, ◌-◌, ◌<◌, ◌≤◌, ◌≡◌, ◌≢◌, refl, ap, ◌∙◌, sym, true, false, Bool-cases, inl, inr, some, List,
  [], ◌∷◌, ◌++◌, map, lt→ltb, if◌then◌else◌, length, length-append, take-eq_self, append_assoc,
  append-nil, All, All-append, arith,
}
use school_meals.CString.{Bytes}
use school_meals.Protocol.{buffer_size}
use school_meals.Server.Wire.{IsString, cut_at_zero_self}
use school_meals.Client.Network.{
  RecvEvent, received, taken_over, has_delimiter, receive_loop, receive_response,
}

abbrev pub whole : List Bytes → Bytes
whole [] = []
whole (piece ∷ pieces) = piece ++ whole pieces

-- What a call of recv brings: some bytes, none of them zero
abbrev pub IsPiece : Bytes → Type 0
IsPiece piece = (0 < length piece) × IsString piece

has_delimiter-append : (s t : Bytes) → has_delimiter s ≡ true → has_delimiter (s ++ t) ≡ true
unfolding has_delimiter
has_delimiter-append [] t h = cc
has_delimiter-append (c ∷ []) t h = cc
has_delimiter-append (c ∷ d ∷ s) t h = ground (arith, has_delimiter-append (d ∷ s) t)

true_not_false : true ≢ false
true_not_false h = cc

lacks_before : (s t : Bytes) → has_delimiter (s ++ t) ≡ false → has_delimiter s ≡ false
lacks_before s t h = elim (Bool-cases (has_delimiter s)) [
  | inl found ↦ absurd (true_not_false (sym (has_delimiter-append s t found) ∙ h))
  | inr lacking ↦ lacking
]

taken_over_string : (s : Bytes) → IsPiece s → taken_over s ≡ (true, s)
taken_over_string [] (h, _) = absurd (omega arith)
taken_over_string (c ∷ s) (_, h) = ap (λ t. (true, t)) (cut_at_zero_self (c ∷ s) h)

receive_loop-received :
    (buffer piece : Bytes) (events : List RecvEvent)
    → IsPiece piece
    → IsString buffer
    → length buffer + length piece ≤ 4095
    → receive_loop (received piece ∷ events) buffer ≡ (
        if has_delimiter (buffer ++ piece)
        then some (true, buffer ++ piece)
        else receive_loop events (buffer ++ piece))
unfolding receive_loop
receive_loop-received buffer [] events (h, _) hb fits = absurd (omega arith)
receive_loop-received buffer (c ∷ s) events (h, hs) hb fits =
    let arrived = All-append _ buffer (c ∷ s) hb hs in
    rw
      (
        lt→ltb (length buffer) 4095 (omega arith),
        take-eq_self (buffer_size - length buffer - 1) (c ∷ s) (omega arith),
        cut_at_zero_self (buffer ++ c ∷ s) arrived,
        taken_over_string (buffer ++ c ∷ s) (omega (arith, length-append buffer (c ∷ s)), arrived),
      )
      refl

receive_loop-pieces :
    (pieces : List Bytes) (last : Bytes) (events : List RecvEvent) (buffer : Bytes)
    → All IsPiece pieces
    → IsPiece last
    → IsString buffer
    → length buffer + length (whole pieces) + length last ≤ 4095
    → has_delimiter (buffer ++ whole pieces) ≡ false
    → has_delimiter ((buffer ++ whole pieces) ++ last) ≡ true
    → receive_loop (map received pieces ++ received last ∷ events) buffer
      ≡ some (true, (buffer ++ whole pieces) ++ last)
receive_loop-pieces [] last events buffer _ hl hb fits before after =
    receive_loop-received buffer last events hl hb (omega arith)
    ∙ rw (append-nil buffer, ap (λ t. has_delimiter (t ++ last)) (sym (append-nil buffer)) ∙ after)
        refl
receive_loop-pieces (piece ∷ pieces) last events buffer (hp, hs) hl hb fits before after =
    let regroup = append_assoc buffer piece (whole pieces) in
    let before' = ap has_delimiter regroup ∙ before in
    receive_loop-received buffer piece _ hp hb (omega (arith, length-append piece (whole pieces)))
    ∙ rw (lacks_before (buffer ++ piece) (whole pieces) before') (
        receive_loop-pieces pieces last events (buffer ++ piece) hs hl
          (All-append _ buffer piece hb (hp.1))
          (omega (arith, length-append piece (whole pieces), length-append buffer piece)) before'
          (ap (λ t. has_delimiter (t ++ last)) regroup ∙ after)
        ∙ ap (λ t. some (true, t ++ last)) regroup)

-- Where a response comes in pieces, none of them empty or with a zero byte, which fit the buffer
-- together, and all but the last hold no delimiter together, the pieces up to the last are the whole
-- response, whatever comes behind them.
pub receive_response_pieces :
    (pieces : List Bytes) (last : Bytes) (events : List RecvEvent)
    → All IsPiece pieces
    → IsPiece last
    → length (whole pieces) + length last ≤ 4095
    → has_delimiter (whole pieces) ≡ false
    → has_delimiter (whole pieces ++ last) ≡ true
    → receive_response true (map received pieces ++ received last ∷ events)
      ≡ some (true, whole pieces ++ last)
unfolding receive_response
receive_response_pieces pieces last events hs hl fits before after =
    receive_loop-pieces pieces last events [] hs hl tt (omega arith) before after
