-- ===== src/DbServer/Hardware/Watch/Moves.antt =====
-- The steps of a watcher keep the map of channels sound.
use tink.Prelude.{
  ℕ, ◌≡◌, ◌≢◌, ◌⊎◌, inl, inr, refl, sym, ap, ◌∙◌, String, Bool, true, false, Option, none, some,
  Bool-cases, Option-cases, List, set, get_elem?, arith, eq_refl, In,
}
use mathlib.Core.Path.{subst}
use mathlib.Core.Bool.{false≢true}
use tink.Proto.Hardware.{Hardware}
use tink.Db.Tables.{DbError}
use tink.Prelude.Outcome.{Outcome, ok, Outcome-cases}
use tink.DbServer.Hardware.{Channel, Json, entry}
use tink.DbServer.Hardware.Watch.{
  Phase, waiting, leaving, closing, gone, Watcher, Watching, drop_entry, close_channel, receive,
  leave_map, close_own, move, phase_after, by_watcher, drop_from, at_select, at_defer, at_close,
}
use tink.DbServer.Hardware.Watch.Calls.{IsKept, close_channel-ok, is_open-channel}
use tink.DbServer.Hardware.Watch.Open.{IsSound-phase, IsSound-channel, IsSound-drop}
use tink.DbServer.Hardware.Watch.Entries.{is_out, IsSound, entry-drop}

-- the watcher at a place, where a step of it succeeds
pub by_watcher-ok :
    (n : ℕ) (w w' : Watching) (go : Watcher → Outcome DbError Watching)
    → by_watcher n w go ≡ ok w'
    → (x : Watcher) × (get_elem? w.watchers n ≡ some x) × (go x ≡ ok w')
by_watcher-ok n w w' go h = elim (Option-cases (get_elem? w.watchers n)) [
  | inl e ↦ absurd ground (arith, e)
  | inr (x, e) ↦ (x, e, ground (arith, e))
]

pub phase_after-in : (o : Option Hardware) (sent : Bool) → is_out (phase_after o sent) ≡ false
phase_after-in none sent = refl
phase_after-in (some hw) true = refl
phase_after-in (some hw) false = refl

pub receive-ok :
    (j : Json) (sent : Bool) (n : ℕ) (x : Watcher) (w w' : Watching)
    → receive j sent n x w ≡ ok w'
    → (ch : Channel) × (get_elem? w.server.channels x.channel ≡ some ch)
      × (((text : String) × (move n x (phase_after (j.unmarshal text) sent) (record w {
        server = record (w.server) {
          channels = set w.server.channels x.channel (record ch { buffer = none });
        };
      })
              ≡ w'))
          ⊎ ((ch.closed ≡ true) × (move n x gone w ≡ w')))
unfolding receive
receive-ok j sent n x w w' h = elim (Option-cases (get_elem? w.server.channels x.channel)) [
  | inl g ↦ absurd ground (arith, g)
  | inr (ch, g) ↦ elim (Option-cases ch.buffer) [
    | inr (text, b) ↦ (ch, g, inl (text, ground (arith, g, b)))
    | inl b ↦ elim (Bool-cases ch.closed) [
      | inl o ↦ (ch, g, inr (o, ground (arith, g, b, o)))
      | inr o ↦ absurd ground (arith, g, b, o)
    ]
  ]
]

-- a closed channel is in no entry
pub closed_out :
    (es : List (String × ℕ)) (chs : List Channel) (ws : List Watcher) (c : ℕ) (ch : Channel)
    → IsSound es chs ws
    → get_elem? chs c ≡ some ch
    → ch.closed ≡ true
    → (i : String) → entry i es ≢ some c
closed_out es chs ws c ch h g o i e =
    let (ch', g', o') = is_open-channel c chs (h.usable i c e) in ground (arith, g, o, g', o')

-- the phases in which the three steps of a watcher are taken
pub at_select-ok :
    (phase : Phase) (next : Outcome DbError Watching) (w' : Watching)
    → at_select phase next ≡ ok w'
    → next ≡ ok w'
at_select-ok waiting next w' h = h
at_select-ok leaving next w' h = absurd ground arith
at_select-ok closing next w' h = absurd ground arith
at_select-ok gone next w' h = absurd ground arith

pub at_defer-ok :
    (phase : Phase) (next : Outcome DbError Watching) (w' : Watching)
    → at_defer phase next ≡ ok w'
    → next ≡ ok w'
at_defer-ok waiting next w' h = absurd ground arith
at_defer-ok leaving next w' h = h
at_defer-ok closing next w' h = absurd ground arith
at_defer-ok gone next w' h = absurd ground arith

pub at_close-ok :
    (phase : Phase) (next : Outcome DbError Watching) (w' : Watching)
    → at_close phase next ≡ ok w'
    → (next ≡ ok w') × (is_out phase ≡ true)
at_close-ok waiting next w' h = absurd ground arith
at_close-ok leaving next w' h = absurd ground arith
at_close-ok closing next w' h = (h, refl)
at_close-ok gone next w' h = absurd ground arith

pub receive-IsKept :
    (j : Json) (sent : Bool) (n : ℕ) (x : Watcher) (w w' : Watching)
    → In x w.watchers
    → IsKept w
    → receive j sent n x w ≡ ok w'
    → IsKept w'
receive-IsKept j sent n x w w' a (es, e, h) r =
    let (ch, g, how) = receive-ok j sent n x w w' r in
    elim how [
      | inl (text, q) ↦
          let chs = set w.server.channels x.channel (record ch { buffer = none }) in
          let sound =
            IsSound-channel es w.server.channels w.watchers x.channel (record ch { buffer = none })
              h
              (elim (Bool-cases ch.closed) [
                | inl o ↦ inl (closed_out es w.server.channels w.watchers x.channel ch h g o)
                | inr o ↦ inr o
              ]) in
          subst IsKept q (
            es,
            e,
            IsSound-phase es chs w.watchers n x (phase_after (j.unmarshal text) sent) sound a
                (λ o. absurd (false≢true (sym (phase_after-in (j.unmarshal text) sent) ∙ o))),
          )
      | inr (o, q) ↦ subst IsKept q (
        es,
        e,
        IsSound-phase es w.server.channels w.watchers n x gone h a
            (λ t. closed_out es w.server.channels w.watchers x.channel ch h g o x.id),
      )
    ]

pub leave_map-IsKept :
    (n : ℕ) (x : Watcher) (w : Watching) → In x w.watchers → IsKept w → IsKept (leave_map n x w)
unfolding leave_map
leave_map-IsKept n x w a (es, e, h) = (
  drop_entry x.id es,
  ap (drop_from x.id) e,
  IsSound-phase (drop_entry x.id es) w.server.channels w.watchers n x closing
      (IsSound-drop es w.server.channels w.watchers x.id h) a
      (λ t f. ground (arith, entry-drop x.id x.id es, eq_refl x.id, f)),
)

pub close_own-ok :
    (n : ℕ) (x : Watcher) (w w' : Watching)
    → close_own n x w ≡ ok w'
    → (chs : List Channel) × (close_channel x.channel w.server.channels ≡ ok chs)
      × (move n x gone (record w { server = record (w.server) { channels = chs } }) ≡ w')
unfolding close_own
close_own-ok n x w w' h = elim (Outcome-cases (close_channel x.channel w.server.channels)) [
  | inl (chs, c) ↦ (chs, c, ground (arith, c))
  | inr (inl (y, c)) ↦ absurd ground (arith, c)
  | inr (inr c) ↦ absurd ground (arith, c)
]

pub close_own-IsKept :
    (n : ℕ) (x : Watcher) (w w' : Watching)
    → In x w.watchers
    → is_out x.phase ≡ true
    → IsKept w
    → close_own n x w ≡ ok w'
    → IsKept w'
close_own-IsKept n x w w' a o (es, e, h) r =
    let (chs, c, q) = close_own-ok n x w w' r in
    let (ch, g, p) = close_channel-ok x.channel w.server.channels chs c in
    let away = λ (i : String) (f : entry i es ≡ some x.channel).
      h.out x a o (ap (λ y. entry y es) (sym (h.named x i a f)) ∙ f) in
    subst IsKept q (
      es,
      e,
      IsSound-phase es chs w.watchers n x gone
          (subst (λ y. IsSound es y w.watchers) p
            (IsSound-channel es w.server.channels w.watchers x.channel (record ch { closed = true })
              h (inl away)))
          a (λ t. away x.id),
    )
