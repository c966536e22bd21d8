-- ===== src/Mesh/Keys.antt =====
-- Keys as text, and where the key of a sender comes from: `ParseHexKey`, `resolveSenderPubKey`,
-- `FetchPublicKeyFromDefcon` and `fetchPublicKeyFromFeed` of internal/mqtt/crypto.go, and `HexKey` of
-- keyderive.go. A text is the list of its bytes. The answer of the resolver and the response to the
-- request for the feed are arguments.
pub mod Laws
use meshtk.KeyCache.{ResolveError}
use meshtk.Mesh.Ccm.{CryptoError, no_sender_key, invalid_hex, invalid_key_length}
use meshtk.Prelude.{
  ℕ, zero, suc, ◌+◌, ◌-◌, ◌*◌, ◌/◌, ◌%◌, List, [], ◌∷◌, ◌++◌, Bool, true, false, ◌&&◌, ◌||◌, Option,
  none, some, String, str_eq, leb, ltb, ◌==◌, if◌then◌else◌, length, Result, ok, err,
}

abbrev pub Text : Type 0
Text = List ℕ

-- `%x` of a half byte, and the reading of a digit by `hex.DecodeString`.
unfoldable pub hex_digit : ℕ → ℕ
hex_digit n = if ltb n 10 then b'0' + n else b'a' + (n - 10)

unfoldable pub hex_value : ℕ → Option ℕ
hex_value c =
    if leb b'0' c && leb c b'9'
    then some (c - b'0')
    else if leb b'a' c && leb c b'f'
    then some (c - b'a' + 10)
    else if leb b'A' c && leb c b'F'
    then some (c - b'A' + 10)
    else none

unfoldable pub print_hex : List ℕ → Text
unfolding hex_digit
print_hex [] = []
print_hex (b ∷ bs) = hex_digit (b / 16) ∷ hex_digit (b % 16) ∷ print_hex bs

unfoldable pub hex_key : List ℕ → Text
unfolding print_hex
hex_key b = b'0' ∷ b'x' ∷ print_hex b

-- A pair of digits before the bytes behind it.
unfoldable pub hex_pair : Option ℕ → Option ℕ → Option (List ℕ) → Option (List ℕ)
hex_pair (some hi) (some lo) (some bs) = some ((hi * 16 + lo) ∷ bs)
hex_pair _ _ _ = none

unfoldable pub decode_hex : Text → Option (List ℕ)
unfolding hex_pair hex_value
decode_hex [] = some []
decode_hex (c ∷ []) = none
decode_hex (c ∷ d ∷ text) = hex_pair (hex_value c) (hex_value d) (decode_hex text)

-- `strings.TrimPrefix(key, "0x")`
unfoldable pub trim_0x : Text → Text
trim_0x (c ∷ d ∷ text) = if c == b'0' && d == b'x' then text else c ∷ d ∷ text
trim_0x text = text

pub key_of_length : Option (List ℕ) → Result CryptoError (List ℕ)
key_of_length none = err invalid_hex
key_of_length (some b) = if length b == 32 then ok b else err invalid_key_length

unfoldable pub parse_hex_key : Text → Result CryptoError (List ℕ)
unfolding key_of_length decode_hex trim_0x
parse_hex_key text = key_of_length (decode_hex (trim_0x text))

-- The decoded JSON of the feed, as far as it is looked at.
pub data FieldValue : Type 0 where
  text_value : Text → FieldValue
  other_value : FieldValue

pub data NodeEntry : Type 0 where
  object : (String → Option FieldValue) → NodeEntry
  other_entry : NodeEntry

-- `nodes` is empty where the body is no JSON object. Its keys are node numbers in decimal.
pub record FeedResponse : Type 0 where
  pub status : ℕ
  pub nodes : Option (ℕ → Option NodeEntry)

pub data FeedError : Type 0 where
  fetch_failed bad_status bad_json no_such_node bad_node no_key key_not_text key_empty : FeedError

unfoldable pub text_of : Option FieldValue → Result FeedError Text
text_of none = err no_key
text_of (some other_value) = err key_not_text
text_of (some (text_value [])) = err key_empty
text_of (some (text_value (c ∷ text))) = ok (c ∷ text)

unfoldable pub first_field : Option FieldValue → Option FieldValue → Option FieldValue
first_field none second = second
first_field (some v) second = some v

unfoldable pub key_in_entry : Option NodeEntry → Result FeedError Text
unfolding text_of first_field
key_in_entry none = err no_such_node
key_in_entry (some other_entry) = err bad_node
key_in_entry (some (object fields)) = text_of (first_field (fields "pubkey") (fields "publicKey"))

unfoldable pub key_in_nodes : ℕ → Option (ℕ → Option NodeEntry) → Result FeedError Text
unfolding key_in_entry
key_in_nodes node none = err bad_json
key_in_nodes node (some nodes) = key_in_entry (nodes node)

unfoldable pub fetch_public_key_from_feed : Option FeedResponse → ℕ → Result FeedError Text
unfolding key_in_nodes
fetch_public_key_from_feed none node = err fetch_failed
fetch_public_key_from_feed (some r) node =
    if r.status == 200 then key_in_nodes node (r.nodes) else err bad_status

-- `pubKeyCache`, the keys that the feed gave last.
abbrev pub PubKeyCache : Type 0
PubKeyCache = List (ℕ × Text)

unfoldable pub load_key : ℕ → PubKeyCache → Option Text
load_key node [] = none
load_key node ((n, key) ∷ rest) = if n == node then some key else load_key node rest

unfoldable pub cached_or : Option Text → Result CryptoError Text → Result CryptoError Text
cached_or none other = other
cached_or (some key) other = ok key

-- The key of the feed, or the one that it gave last. An empty key is none.
unfoldable pub fetch_or_cached :
    ℕ → PubKeyCache → Result FeedError Text → Result CryptoError Text × PubKeyCache
unfolding load_key cached_or
fetch_or_cached node cache (ok (c ∷ key)) = (ok (c ∷ key), (node, c ∷ key) ∷ cache)
fetch_or_cached node cache (ok []) = (cached_or (load_key node cache) (ok []), cache)
fetch_or_cached node cache (err e) = (cached_or (load_key node cache) (err no_sender_key), cache)

unfoldable pub fetch_public_key_from_defcon :
    Option FeedResponse → ℕ → PubKeyCache → Result CryptoError Text × PubKeyCache
unfolding fetch_or_cached
fetch_public_key_from_defcon feed node cache =
    fetch_or_cached node cache (fetch_public_key_from_feed feed node)

-- What `Resolve` of the key cache answered, where a resolver is wired.
abbrev pub Resolution : Type 0
Resolution = Option (Result ResolveError (Option Text))

unfoldable pub fall_back :
    String → Option FeedResponse → ℕ → PubKeyCache → Result CryptoError Text × PubKeyCache
fall_back key_fallback feed node cache =
    if str_eq key_fallback "none"
    then (err no_sender_key, cache)
    else fetch_public_key_from_defcon feed node cache

unfoldable pub resolve_sender_pub_key :
    Resolution
    → String
    → Option FeedResponse
    → ℕ
    → PubKeyCache
    → Result CryptoError Text × PubKeyCache
unfolding fall_back
resolve_sender_pub_key none key_fallback feed node cache =
    fetch_public_key_from_defcon feed node cache
resolve_sender_pub_key (some (ok (some key))) key_fallback feed node cache = (ok key, cache)
resolve_sender_pub_key (some (ok none)) key_fallback feed node cache =
    fall_back key_fallback feed node cache
resolve_sender_pub_key (some (err e)) key_fallback feed node cache =
    fall_back key_fallback feed node cache
