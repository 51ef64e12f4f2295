-- ===== src/Tests/Machines.antt =====
-- A database of two machines, and a JSON that can write these two: the tests of the hardware service.
use tink.Prelude.{
  ◌≡◌, ◌≢◌, ◌⊎◌, inl, inr, refl, sym, ap, ◌∙◌, String, Bool, true, false, not, ◌&&◌, Option, none,
  some, List, [], ◌∷◌, str_eq, eq_iff, str_ne, str_eq-false, ◌||◌, arith, Bool-cases, if◌then◌else◌,
}
use mathlib.Core.Path.{subst}
use text.Mathlib.TextLemmas.{append_cancel_left, append_cancel_right, append-ne-nil_of_right_ne-nil}
use tink.Prelude.Int.{pos}
use tink.Prelude.Names.{contains}
use tink.Proto.Hardware.{Hardware, Interface}
use tink.Db.Hardware.{Jsonb, HardwareRow, mac_query}
use tink.DbServer.Hardware.{Json, Server}
use tink.DbServer.Hardware.Unique.{macs_of, has_mac, Encodes, IsDocumented}

abbrev pub port : String → Interface
port mac = record {
  dhcp = some (record {
    mac = mac;
    hostname = "";
    lease_time = pos 0;
    name_servers = [];
    time_servers = [];
    arch = "";
    uefi = false;
    iface_name = "";
    ip = none;
  });
  netboot = none;
}

abbrev pub machine : String → List Interface → Hardware
machine id ports = record {
  network = some (record { interfaces = ports });
  id = id;
  version = pos 0;
  metadata = "";
}

-- the text of a machine with a single address: the text that the address stands for
abbrev text_for : String → List String → Option String
text_for id [] = none
text_for id (m ∷ []) =
    if str_eq id "1" && str_eq m "aa"
    then some "one"
    else if str_eq id "2" && str_eq m "bb"
    then some "two"
    else none
text_for id (m ∷ n ∷ rest) = none

abbrev known : String → Bool
known text = if str_eq text "one" then true else str_eq text "two"

abbrev address : String → String
address text = if str_eq text "one" then "aa" else "bb"

abbrev number : String → String
number text = if str_eq text "one" then "1" else "2"

abbrev pub json : Json
json = record {
  marshal = λ hw. text_for hw.id (macs_of hw);
  unmarshal =
      λ text. if known text then some (machine (number text) (port (address text) ∷ [])) else none;
  to_lower = λ text. text;
}

abbrev pub jsonb : Jsonb
jsonb = record {
  cast = λ text. if str_eq text "" then none else some text;
  uuid = λ text. some text;
  id = λ text. if known text then some (some (number text)) else none;
  includes = λ text query. str_eq query (mac_query (address text));
}

mac_query-inj : (m n : String) → mac_query m ≡ mac_query n → m ≡ n
mac_query-inj m n h = append_cancel_left _ m n (append_cancel_right _ _ _ h)

mac_query-eq : (m n : String) → str_eq (mac_query m) (mac_query n) ≡ str_eq n m
mac_query-eq m n = elim (Bool-cases (str_eq n m)) [
  | inl e ↦ (eq_iff (mac_query m) (mac_query n)).1 (ap mac_query (sym ((eq_iff n m).0 e))) ∙ sym e
  | inr e ↦
      str_eq-false (mac_query m) (mac_query n) (λ q. str_ne n m e (sym (mac_query-inj m n q)))
      ∙ sym e
]

same_mac :
    (m n : String) → str_eq n "" ≡ false → (not (str_eq m "") && (str_eq n m || false)) ≡ str_eq n m
same_mac m n h = ground (arith, eq_iff m "", eq_iff n m, eq_iff n "")

has_mac-one :
    (m n : String) (hw : Hardware)
    → macs_of hw ≡ n ∷ []
    → str_eq n "" ≡ false
    → has_mac m hw ≡ str_eq n m
unfolding contains
has_mac-one m n hw e h = ap (λ xs. not (str_eq m "") && contains xs m) e ∙ same_mac m n h

abbrev Is : String → List String → String → String → String → String → Type 0
Is id ms text id' m text' = (id ≡ id') × (ms ≡ m ∷ []) × (text ≡ text')

text_for-cases :
    (id : String) (ms : List String) (text : String)
    → text_for id ms ≡ some text
    → Is id ms text "1" "aa" "one" ⊎ Is id ms text "2" "bb" "two"
text_for-cases id [] text h = absurd ground arith
text_for-cases id (m ∷ n ∷ rest) text h = absurd ground arith
text_for-cases id (m ∷ []) text h = elim (Bool-cases (str_eq id "1" && str_eq m "aa")) [
  | inl e ↦
      inl (ground (arith, e, eq_iff id "1"), ground (arith, e, eq_iff m "aa"), ground (arith, e))
  | inr e ↦ elim (Bool-cases (str_eq id "2" && str_eq m "bb")) [
    | inl e' ↦ inr (
      ground (arith, e', eq_iff id "2"),
      ground (arith, e', eq_iff m "bb"),
      ground (arith, e, e'),
    )
    | inr e' ↦ absurd ground (arith, e, e')
  ]
]

cast-eq : (text doc : String) → jsonb.cast text ≡ some doc → text ≡ doc
cast-eq text doc h = ground arith

encoded :
    (hw : Hardware) (id m text : String)
    → hw.id ≡ id
    → macs_of hw ≡ m ∷ []
    → known text ≡ true
    → number text ≡ id
    → address text ≡ m
    → str_eq m "" ≡ false
    → str_eq text "" ≡ false
    → Encodes jsonb json hw text
encoded hw id m text i ms k n a b t = record {
  decoded = (machine (number text) (port (address text) ∷ []), ground (arith, k), n ∙ sym i);
  present = t;
  keyed = λ x. ground (arith, k, n, i);
  found = λ m' q p c.
      ap (λ x. str_eq x (mac_query (address text))) (sym (cast-eq (mac_query m') q c))
      ∙ mac_query-eq m' (address text)
      ∙ ap (λ x. str_eq x m') a
      ∙ sym (has_mac-one m' m hw ms b);
}

cast-known : (text : String) → text ≢ "" → jsonb.cast text ≡ some text
cast-known text n = ap (λ b. if b then none else some text) (str_eq-false text "" n)

pub json-IsDocumented : IsDocumented jsonb json
json-IsDocumented = record {
  no_document = refl;
  query = λ m p. (
    mac_query m,
    cast-known (mac_query m) (append-ne-nil_of_right_ne-nil _ (str_ne "\"}}]}}" "" refl)),
  );
  document = λ hw text doc h c. elim (text_for-cases hw.id (macs_of hw) text h) [
    | inl (i, ms, t) ↦
        subst (Encodes jsonb json hw) (sym t ∙ cast-eq text doc c)
          (encoded hw "1" "aa" "one" i ms refl refl refl refl refl)
    | inr (i, ms, t) ↦
        subst (Encodes jsonb json hw) (sym t ∙ cast-eq text doc c)
          (encoded hw "2" "bb" "two" i ms refl refl refl refl refl)
  ];
}

abbrev pub row_of : String → HardwareRow
row_of text = record { id = some (number text); inserted_at = pos 1; deleted_at = none; doc = text }

abbrev pub server_of : List HardwareRow → Server
server_of rows = record { ready = true; watch = some []; channels = []; hardware = rows }
