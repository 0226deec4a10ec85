-- ===== src/Config/Url.antt =====
-- `ws_base_url` of the three config.py files, which are the same.
use text.Mathlib.TextLemmas.{cons-append}
use Prim.Native.String.{◌++◌}
use open_rmf_adapters_quiksy.Base.{
  ◌↔◌, String, Option, none, some, ◌≡◌, ◌⊎◌, inl, inr, refl, arith, ap, sym,
}
use open_rmf_adapters_quiksy.Base.Exec.{Result, ok, err, config_error, attribute_error, ok-inj}
use open_rmf_adapters_quiksy.Python.{Value, str}
use open_rmf_adapters_quiksy.Python.Text.{strip_prefix}
use open_rmf_adapters_quiksy.Python.Text.Strip.{strip_prefix_sound, strip_prefix-append}

-- the three branches, by what is behind "https://" and behind "http://"
unfoldable pub ws_address : Option String → Option String → Result String
ws_address (some rest) _ = ok ("wss://" ++ rest)
ws_address none (some rest) = ok ("ws://" ++ rest)
ws_address none none = err config_error

-- `self.base_url` is what was given, a text or not.
unfoldable pub ws_base_url : Value → Result String
ws_base_url (str s) = ws_address (strip_prefix "https://" s) (strip_prefix "http://" s)
ws_base_url _ = err attribute_error

-- the web socket address of a site
abbrev pub HasWsUrl : String → String → Type 0
HasWsUrl s u =
    ((rest : String) × (s ≡ "https://" ++ rest) × (u ≡ "wss://" ++ rest))
    ⊎ ((rest : String) × (s ≡ "http://" ++ rest) × (u ≡ "ws://" ++ rest))

ws_address-HasWsUrl :
    (s : String) (secure plain : Option String) {u : String}
    → strip_prefix "https://" s ≡ secure
    → strip_prefix "http://" s ≡ plain
    → ws_address secure plain ≡ ok u
    → HasWsUrl s u
unfolding ws_address
ws_address-HasWsUrl s (some rest) plain p q h =
    inl (rest, strip_prefix_sound "https://" s p, sym (ok-inj h))
ws_address-HasWsUrl s none (some rest) p q h =
    inr (rest, strip_prefix_sound "http://" s q, sym (ok-inj h))
ws_address-HasWsUrl s none none p q h = absurd (ground (arith, h))

plain_differs : (rest : String) → strip_prefix "https://" ("http://" ++ rest) ≡ none
unfolding strip_prefix
plain_differs rest =
    rw cons-append (rw cons-append (rw cons-append (rw cons-append (rw cons-append refl))))

HasWsUrl-ws_base_url : (s u : String) → HasWsUrl s u → ws_base_url (str s) ≡ ok u
unfolding ws_base_url ws_address
HasWsUrl-ws_base_url s u (inl (rest, p, q)) =
    rw p (rw (strip_prefix-append "https://" rest) (ap ok (sym q)))
HasWsUrl-ws_base_url s u (inr (rest, p, q)) =
    rw p (rw (plain_differs rest) (rw (strip_prefix-append "http://" rest) (ap ok (sym q))))

-- The web socket address of a base address has the scheme wss for https and ws for http, and behind
-- the scheme what the base address has; a base address with another scheme has none.
pub ws_base_url_iff : (s u : String) → (ws_base_url (str s) ≡ ok u) ↔ HasWsUrl s u
unfolding ws_base_url
ws_base_url_iff s u = (
  ws_address-HasWsUrl s (strip_prefix "https://" s) (strip_prefix "http://" s) refl refl,
  HasWsUrl-ws_base_url s u,
)
