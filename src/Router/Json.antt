-- ===== src/Router/Json.antt =====
-- `conversation_key` and the reads of a request's body, of scripts/serve/router.py. The parser of
-- JSON, its printer and the hash are parameters.
use tts_tokens_that_suffice.Prelude.{
  Bool, true, false, Option, none, some, List, [], ◌∷◌, if◌then◌else◌, Text, text_eq, codes,
  is_nonempty, Result, attribute_error, type_error, err, ok, ◌>>=◌,
}

-- A JSON value, with the text of a number and whether it is nonzero.
mutual
  pub data Body : Type 0 where
    null : Body
    truth : Bool → Body
    number : (nonzero : Bool) (literal : Text) → Body
    string : Text → Body
    array : Bodies → Body
    dict : Fields → Body

  pub data Bodies : Type 0 where
    nil : Bodies
    cons : Body → Bodies → Bodies

  pub data Fields : Type 0 where
    end : Fields
    field : Text → Body → Fields → Fields

-- `loads` raises a value error where it raises a JSONDecodeError; `dumps` is given a list.
pub record Wire : Type 0 where
  pub loads : Text → Result Body
  pub dumps : List Body → Text
  pub hexdigest : Text → Text

-- bool(value)
unfoldable pub truthy : Body → Bool
truthy null = false
truthy (truth b) = b
truthy (number nonzero literal) = nonzero
truthy (string t) = is_nonempty t
truthy (array nil) = false
truthy (array (cons v vs)) = true
truthy (dict end) = false
truthy (dict (field k v fs)) = true

-- fs.get(key), null where it is missing; the keys of an object differ
unfoldable pub field_of : Text → Fields → Body
unfolding text_eq
field_of key end = null
field_of key (field k v fs) = if text_eq k key then v else field_of key fs

-- value.get(key)
unfoldable pub get : Text → Body → Result Body
unfolding field_of
get key (dict fs) = ok (field_of key fs)
get key _ = err attribute_error

-- [m.get("content") for m in msgs[:2]]
unfoldable pub first_contents : Bodies → Result (List Body)
unfolding get
first_contents nil = ok []
first_contents (cons a nil) = do x ← get (codes "content") a; ok (x ∷ [])
first_contents (cons a (cons b rest)) = do
  x ← get (codes "content") a
  y ← get (codes "content") b
  ok (x ∷ y ∷ [])

-- A text is cut to its first characters, which have no `get`; nothing else can be cut.
unfoldable pub seed : Body → Result (List Body)
unfolding first_contents
seed (array ms) = first_contents ms
seed (string t) = err attribute_error
seed _ = err type_error

unfoldable pub key_of : Wire → Body → Result (Option Text)
unfolding truthy seed
key_of wire msgs = elim (truthy msgs) [
  | false ↦ ok none
  | true ↦ do contents ← seed msgs; ok (some (wire.hexdigest (wire.dumps contents)))
]

unfoldable pub conversation_key : Wire → Body → Result (Option Text)
unfolding get key_of
conversation_key wire body = do msgs ← get (codes "messages") body; key_of wire msgs

-- bool(body.get("stream")), of a body that is an object
unfoldable pub streams : Body → Bool
unfolding field_of truthy
streams (dict fs) = truthy (field_of (codes "stream") fs)
streams _ = false
