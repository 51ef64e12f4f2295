-- ===== src/DbServer/Hardware/Watch/Open.antt =====
-- The channels in the map `watch` are open, whatever the order of the goroutines' steps.
use tink.Prelude.{
  ℕ, ◌<◌, ◌≡◌, ◌≢◌, ◌⊎◌, inl, inr, sym, ap, ◌∙◌, String, true, false, some, List, [], ◌∷◌, ◌++◌,
  set, length, length-set, length-append, arith, In,
}
use mathlib.Core.Path.{subst}
use mathlib.Core.Bool.{false≢true}
use tink.Convert.{put}
use tink.DbServer.Hardware.{Channel, entry}
use tink.DbServer.Hardware.Watch.{Phase, waiting, Watcher, drop_entry, new_channel}
use tink.DbServer.Hardware.Watch.Entries.{
  is_open, is_out, IsSound, is_open-append, is_open-new, is_open-set, In-set, In-snoc, kept, added,
  fresh,
}

module _ (es : List (String × ℕ)) (chs : List Channel) (ws : List Watcher) where
  -- a watcher moves to another phase
  pub IsSound-phase :
      (n : ℕ) (x : Watcher) (phase : Phase)
      → IsSound es chs ws
      → In x ws
      → (is_out phase ≡ true → entry x.id es ≢ some x.channel)
      → IsSound es chs (set ws n (record x { phase = phase }))
  IsSound-phase n x phase h a o = record {
    usable = h.usable;
    alone = h.alone;
    made = λ y b. elim (In-set ws n (record x { phase = phase }) y b) [
      | inl e ↦ subst (λ (y : Watcher). y.channel < length chs) e (h.made x a)
      | inr c ↦ h.made y c
    ];
    named = λ y i b. elim (In-set ws n (record x { phase = phase }) y b) [
      | inl e ↦ subst (λ (y : Watcher). entry i es ≡ some y.channel → i ≡ y.id) e (h.named x i a)
      | inr c ↦ h.named y i c
    ];
    out = λ y b. elim (In-set ws n (record x { phase = phase }) y b) [
      | inl e ↦ subst (λ (y : Watcher). is_out y.phase ≡ true → entry y.id es ≢ some y.channel) e o
      | inr c ↦ h.out y c
    ];
  }

  -- a channel changes that is not in the map, or stays open
  pub IsSound-channel :
      (c : ℕ) (ch : Channel)
      → IsSound es chs ws
      → ((i : String) → entry i es ≢ some c) ⊎ (ch.closed ≡ false)
      → IsSound es (set chs c ch) ws
  IsSound-channel c ch h o = record {
    usable = λ i d e.
        is_open-set d c ch chs (elim o [ inl f ↦ inl (λ x. f i (e ∙ ap some x)) | inr q ↦ inr q ])
          (h.usable i d e);
    alone = h.alone;
    made = λ y b. subst (λ n. y.channel < n) (sym (length-set chs c ch)) (h.made y b);
    named = h.named;
    out = h.out;
  }

  -- an entry is deleted
  pub IsSound-drop : (id : String) → IsSound es chs ws → IsSound (drop_entry id es) chs ws
  IsSound-drop id h = record {
    usable = λ i c e. h.usable i c (kept id i c es e);
    alone = λ i j c e f. h.alone i j c (kept id i c es e) (kept id j c es f);
    made = h.made;
    named = λ y i b e. h.named y i b (kept id i y.channel es e);
    out = λ y b o e. h.out y b o (kept id y.id y.channel es e);
  }

  -- a new watcher takes the place of the dropped entry
  pub IsSound-put :
      (id : String)
      → IsSound (drop_entry id es) chs ws
      → IsSound
          (put id (length chs) es)
          (chs ++ new_channel ∷ [])
          (ws ++ record { id = id; channel = length chs; phase = waiting } ∷ [])
  IsSound-put id h = record {
    usable = λ i c e. elim (added id i (length chs) c es e) [
      | inl (s, q) ↦ subst (λ d. is_open d (chs ++ new_channel ∷ []) ≡ true) q (is_open-new chs)
      | inr (n, q) ↦ is_open-append c chs (new_channel ∷ []) (h.usable i c q)
    ];
    alone = λ i j c e f. elim (added id i (length chs) c es e) [
      | inl (si, q) ↦ elim (added id j (length chs) c es f) [
        | inl (sj, r) ↦ si ∙ sym sj
        | inr (n, r) ↦ absurd (fresh j c es chs ws id h r q)
      ]
      | inr (n, q) ↦ elim (added id j (length chs) c es f) [
        | inl (sj, r) ↦ absurd (fresh i c es chs ws id h q r)
        | inr (m, r) ↦ h.alone i j c q r
      ]
    ];
    made = λ y b.
        let n = length-append chs (new_channel ∷ []) in
        elim (In-snoc ws _ y b) [
          | inl z ↦ omega (arith, n, ap (λ (x : Watcher). x.channel) z)
          | inr c ↦ omega (arith, n, h.made y c)
        ];
    named = λ y i b e. elim (added id i (length chs) y.channel es e) [
      | inl (s, q) ↦ elim (In-snoc ws _ y b) [
        | inl z ↦ s ∙ ap (λ (x : Watcher). x.id) z
        | inr c ↦ absurd omega (arith, q, h.made y c)
      ]
      | inr (n, q) ↦ elim (In-snoc ws _ y b) [
        | inl z ↦ absurd (fresh i y.channel es chs ws id h q (ap (λ (x : Watcher). x.channel) z))
        | inr c ↦ h.named y i c q
      ]
    ];
    out = λ y b o e. elim (In-snoc ws _ y b) [
      | inl z ↦ false≢true (ap (λ (x : Watcher). is_out x.phase) z ∙ o)
      | inr c ↦ elim (added id y.id (length chs) y.channel es e) [
        | inl (s, q) ↦ omega (arith, q, h.made y c)
        | inr (n, q) ↦ h.out y c o q
      ]
    ];
  }
