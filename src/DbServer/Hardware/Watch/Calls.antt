-- ===== src/DbServer/Hardware/Watch/Calls.antt =====
-- A call of `DeprecatedWatch` and a notification keep the map of channels sound.
use tink.Prelude.{
  ℕ, ◌≡◌, ◌≢◌, ◌⊎◌, inl, inr, refl, sym, ◌∙◌, String, true, false, none, some, Bool-cases,
  Option-cases, List, set, get_elem?, arith, str_ne, str_eq,
}
use mathlib.Core.Path.{subst}
use tink.Prelude.Outcome.{ok, Outcome-cases}
use tink.DbServer.Hardware.{Channel, Server, entry, notify, send_to}
use tink.DbServer.Hardware.Watch.{
  Watcher, Watching, drop_entry, close_channel, registered, register,
}
use tink.DbServer.Hardware.Watch.Open.{IsSound-channel, IsSound-drop, IsSound-put}
use tink.DbServer.Hardware.Watch.Entries.{is_open, IsSound, entry-drop}

abbrev pub IsKept : Watching → Type 0
IsKept w =
    (es : List (String × ℕ)) × (w.server.watch ≡ some es) × IsSound es w.server.channels w.watchers

pub close_channel-ok :
    (c : ℕ) (chs chs' : List Channel)
    → close_channel c chs ≡ ok chs'
    → (ch : Channel) × (get_elem? chs c ≡ some ch)
      × (set chs c (record ch { closed = true }) ≡ chs')
unfolding close_channel
close_channel-ok c chs chs' h = elim (Option-cases (get_elem? chs c)) [
  | inl n ↦ absurd ground (arith, n)
  | inr (ch, e) ↦ (ch, e, ground (arith, e))
]

register-none :
    (id : String) (es : List (String × ℕ)) (w w' : Watching)
    → w.server.watch ≡ some es
    → entry id es ≡ none
    → register id w ≡ ok w'
    → registered id es w.server.channels w ≡ w'
unfolding register
register-none id es w w' e n h = ground (arith, e, n)

pub register-some :
    (id : String) (old : ℕ) (es : List (String × ℕ)) (w w' : Watching)
    → w.server.watch ≡ some es
    → entry id es ≡ some old
    → register id w ≡ ok w'
    → (chs : List Channel) × (close_channel old w.server.channels ≡ ok chs)
      × (registered id es chs w ≡ w')
unfolding register
register-some id old es w w' e n h = elim (Outcome-cases (close_channel old w.server.channels)) [
  | inl (chs, c) ↦ (chs, c, ground (arith, e, n, c))
  | inr (inl (x, c)) ↦ absurd ground (arith, e, n, c)
  | inr (inr c) ↦ absurd ground (arith, e, n, c)
]

-- the evicted channel is in no entry that is kept
not_dropped :
    (id i : String) (old : ℕ) (es : List (String × ℕ)) (chs : List Channel) (ws : List Watcher)
    → IsSound es chs ws
    → entry id es ≡ some old
    → entry i (drop_entry id es) ≢ some old
not_dropped id i old es chs ws h n f = elim (Bool-cases (str_eq i id)) [
  | inl e ↦ ground (arith, entry-drop id i es, e, f)
  | inr e ↦ str_ne i id e (h.alone i id old ground (arith, entry-drop id i es, e, f) n)
]

pub register-IsKept : (id : String) (w w' : Watching) → IsKept w → register id w ≡ ok w' → IsKept w'
register-IsKept id w w' (es, e, h) r = elim (Option-cases (entry id es)) [
  | inl n ↦ subst IsKept (register-none id es w w' e n r) (
    _,
    refl,
    IsSound-put es w.server.channels w.watchers id
        (IsSound-drop es w.server.channels w.watchers id h),
  )
  | inr (old, n) ↦
      let (chs, c, q) = register-some id old es w w' e n r in
      let (ch, g, p) = close_channel-ok old w.server.channels chs c in
      let dropped = IsSound-drop es w.server.channels w.watchers id h in
      subst IsKept q (
        _,
        refl,
        IsSound-put es chs w.watchers id (
            subst (λ x. IsSound (drop_entry id es) x w.watchers) p
              (IsSound-channel (drop_entry id es) w.server.channels w.watchers old
                (record ch { closed = true }) dropped
                (inl λ i f. not_dropped id i old es w.server.channels w.watchers h n f))),
      )
]

-- an entry of a sound map leads to a channel that is open
pub is_open-channel :
    (c : ℕ) (chs : List Channel)
    → is_open c chs ≡ true
    → (ch : Channel) × (get_elem? chs c ≡ some ch) × (ch.closed ≡ false)
unfolding is_open
is_open-channel c chs h = elim (Option-cases (get_elem? chs c)) [
  | inl n ↦ absurd ground (arith, n)
  | inr (ch, e) ↦ (ch, e, ground (arith, e))
]

send_to-ok :
    (c : ℕ) (text : String) (ch : Channel) (s : Server)
    → ch.closed ≡ false
    → (s' : Server) × (send_to c text ch s ≡ ok s')
      × (s'.watch ≡ s.watch)
      × ((s'.channels ≡ s.channels)
          ⊎ (s'.channels ≡ set s.channels c (record ch { buffer = some text })))
send_to-ok c text ch s o = elim (Option-cases ch.buffer) [
  | inl n ↦ (
    record s { channels = set s.channels c (record ch { buffer = some text }) },
    ground (arith, o, n),
    refl,
    inr refl,
  )
  | inr (waiting_text, n) ↦ (s, ground (arith, o, n), refl, inl refl)
]

notify-none :
    (id text : String) (es : List (String × ℕ)) (s : Server)
    → s.watch ≡ some es
    → entry id es ≡ none
    → notify id text s ≡ ok s
unfolding notify
notify-none id text es s e n = ground (arith, e, n)

notify-some :
    (id text : String) (es : List (String × ℕ)) (c : ℕ) (ch : Channel) (s : Server)
    → s.watch ≡ some es
    → entry id es ≡ some c
    → get_elem? s.channels c ≡ some ch
    → notify id text s ≡ send_to c text ch s
unfolding notify
notify-some id text es c ch s e n g = ground (arith, e, n, g)

-- A notification of a sound server neither panics nor spoils it.
pub notify-IsKept :
    (id text : String) (w : Watching)
    → IsKept w
    → (s : Server) × (notify id text w.server ≡ ok s) × IsKept (record w { server = s })
notify-IsKept id text w (es, e, h) = elim (Option-cases (entry id es)) [
  | inl n ↦ (w.server, notify-none id text es w.server e n, (es, e, h))
  | inr (c, n) ↦
      let (ch, g, o) = is_open-channel c w.server.channels (h.usable id c n) in
      let (s, q, same, chs) = send_to-ok c text ch w.server o in
      (
        s,
        notify-some id text es c ch w.server e n g ∙ q,
        (
          es,
          same ∙ e,
          elim chs [
            | inl p ↦ subst (λ x. IsSound es x w.watchers) (sym p) h
            | inr p ↦
                subst (λ x. IsSound es x w.watchers) (sym p)
                  (IsSound-channel es w.server.channels w.watchers c
                    (record ch { buffer = some text }) h (inr o))
          ],
        ),
      )
]
