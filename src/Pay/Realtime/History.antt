-- ===== src/Pay/Realtime/History.antt =====
-- What a late subscriber is sent: the last twenty events of its RLID.
use karta_cards_vera.Common.{
  ℕ, suc, ◌-◌, ◌≤◌, ◌≡◌, refl, sym, ap, ◌∙◌, String, Option, true, List, [], ◌∷◌, ◌++◌,
  append_assoc, append-nil, ◌==◌, eq_iff, length, length-append, drop, keep, map, ltb, arith,
  lookup, lookup-insert, lookup-insert_other, or_else, Bool-cases, Option-cases, inl, inr, ◌≢◌,
}
use karta_cards_vera.Pay.Realtime.{
  SseEvent, connected, event, SseBus, history, shift_history, publish, subscribe, join,
}

shift_history-append :
    (xs ys : List SseEvent) → shift_history (shift_history xs ++ ys) ≡ shift_history (xs ++ ys)
unfolding shift_history
shift_history-append [] ys = refl
shift_history-append (x ∷ xs) ys = elim (Bool-cases (ltb 20 (length (x ∷ xs)))) [
  | inr short ↦ rw short refl
  | inl long ↦
      let longer : ltb 20 (length ((x ∷ xs) ++ ys)) ≡ true = ground (arith, length-append xs ys) in
      rw (long, longer) (shift_history-append xs ys)
]

shift_history-drop : (xs : List SseEvent) → shift_history xs ≡ drop (length xs - 20) xs
unfolding shift_history
shift_history-drop [] = refl
shift_history-drop (x ∷ xs) = elim (Bool-cases (ltb 20 (length (x ∷ xs)))) [
  | inr short ↦ let all_kept : length (x ∷ xs) - 20 ≡ 0 = ground arith in rw (short, all_kept) refl
  | inl long ↦
      let more : length (x ∷ xs) - 20 ≡ suc (length xs - 20) = ground arith in
      rw (long, more) (shift_history-drop xs)
]

shift_history-short : (xs : List SseEvent) → length xs ≤ 20 → shift_history xs ≡ xs
shift_history-short xs h =
    let all_kept : length xs - 20 ≡ 0 = omega arith in shift_history-drop xs ∙ rw all_kept refl

abbrev pub publish_all : List SseEvent → SseBus → SseBus
publish_all [] b = b
publish_all (e ∷ es) b = publish_all es (publish e b)

-- The events of an RLID, in their order.
abbrev pub events_of : String → List SseEvent → List SseEvent
events_of rlid = keep (λ e. e.rlid == rlid)

history-own :
    (e : SseEvent) (b : SseBus)
    → history e.rlid (publish e b) ≡ shift_history (history e.rlid b ++ e ∷ [])
unfolding publish
history-own e b =
    ap (λ (h : Option (List SseEvent)). or_else h [])
      (lookup-insert e.rlid (shift_history (history e.rlid b ++ e ∷ [])) b.last_by_rlid)

history-other :
    (rlid : String) (e : SseEvent) (b : SseBus)
    → rlid ≢ e.rlid
    → history rlid (publish e b) ≡ history rlid b
unfolding publish
history-other rlid e b apart =
    ap (λ (h : Option (List SseEvent)). or_else h [])
      (lookup-insert_other rlid e.rlid (shift_history (history e.rlid b ++ e ∷ [])) b.last_by_rlid
        apart)

history-publish_all :
    (rlid : String) (es : List SseEvent) (b : SseBus)
    → shift_history (history rlid (publish_all es b))
      ≡ shift_history (history rlid b ++ events_of rlid es)
history-publish_all rlid [] b = ap shift_history (sym (append-nil (history rlid b)))
history-publish_all rlid (e ∷ es) b =
    let ih = history-publish_all rlid es (publish e b) in
    elim (Bool-cases (e.rlid == rlid)) [
      | inl own ↦
          let same : rlid ≡ e.rlid = sym ((eq_iff e.rlid rlid).0 own) in
          let next : history rlid (publish e b) ≡ shift_history (history rlid b ++ e ∷ []) =
            rw same (history-own e b) in
          ih
          ∙ rw
              (
                own,
                next,
                shift_history-append (history rlid b ++ e ∷ []) (events_of rlid es),
                append_assoc (history rlid b) (e ∷ []) (events_of rlid es),
              )
              refl
      | inr strange ↦
          ih
          ∙ rw (strange, history-other rlid e b (λ same. cc ((eq_iff e.rlid rlid).1 (sym same))))
              refl
    ]

-- A history never grows beyond twenty events.
length-shift_history : (xs : List SseEvent) → length (shift_history xs) ≤ 20
unfolding shift_history
length-shift_history [] = omega arith
length-shift_history (x ∷ xs) = ground (arith, length-shift_history xs)

length-history :
    (rlid : String) (es : List SseEvent) (b : SseBus)
    → length (history rlid b) ≤ 20
    → length (history rlid (publish_all es b)) ≤ 20
length-history rlid [] b h = h
length-history rlid (e ∷ es) b h =
    length-history rlid es (publish e b) (elim (Bool-cases (e.rlid == rlid)) [
      | inl own ↦
          let same : rlid ≡ e.rlid = sym ((eq_iff e.rlid rlid).0 own) in
          rw (same, history-own e b) (length-shift_history _)
      | inr strange ↦ rw (history-other rlid e b (λ same. cc ((eq_iff e.rlid rlid).1 (sym same)))) h
    ])

join-written : (rlid : String) (res : ℕ) (b : SseBus) → (join rlid res b).1.written ≡ b.written
unfolding join
join-written rlid res b = elim (Option-cases (lookup rlid b.subscribers)) [
  | inl none_yet ↦ rw (none_yet, join) refl
  | inr (i, there) ↦ rw (there, join) refl
]

joined :
    (rlid : String) (res : ℕ) (b : SseBus) (es : List SseEvent)
    → history rlid b ≡ es
    → (subscribe rlid res b).1.written
      ≡ b.written ++ (res, connected) ∷ map (λ e. (res, event e)) es
unfolding subscribe
joined rlid res b es h =
    join-written rlid res (record b {
      written = b.written ++ (res, connected) ∷ map (λ e. (res, event e)) (history rlid b);
    })
    ∙ rw h refl

-- A response that subscribes to an RLID after any sequence of events, on a bus that had no history
-- for it, is written the greeting and then the last twenty events of that RLID in their order, and
-- events of other RLIDs are not among them.
pub subscribe-publish_all :
    (rlid : String) (res : ℕ) (es : List SseEvent) (b : SseBus)
    → history rlid b ≡ []
    → (subscribe rlid res (publish_all es b)).1.written
      ≡ (publish_all es b).written
        ++ (res, connected)
          ∷ map (λ e. (res, event e)) (drop (length (events_of rlid es) - 20) (events_of rlid es))
subscribe-publish_all rlid res es b empty =
    let short = length-history rlid es b (rw empty (omega arith)) in
    let replayed : history rlid (publish_all es b)
        ≡ drop (length (events_of rlid es) - 20) (events_of rlid es) =
      sym (shift_history-short (history rlid (publish_all es b)) short)
      ∙ (history-publish_all rlid es b
          ∙ (rw empty refl ∙ shift_history-drop (events_of rlid es))) in
    joined rlid res (publish_all es b) _ replayed
