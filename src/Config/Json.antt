-- ===== src/Config/Json.antt =====
-- `rejectDuplicateKeys`, `scanJSONValue` and `ensureEOF` of internal/config/config.go, over the tokens
-- that `json.Decoder` returns.
pub mod Value
pub mod Tree
pub mod Fresh
pub mod Accepts
pub mod Sound
pub mod Ends
use hetdns.Prelude.{
  ℕ, zero, suc, ◌+◌, ◌++◌, Bool, true, false, Option, none, some, List, [], ◌∷◌, any, length,
  if◌then◌else◌,
}
use hetdns.Prelude.Text.{Text, text, text_eq, decimal}
use hetdns.Config.Validate.{within}

-- A token. `close` is the delimiter that ends the innermost open object or array: `Token` returns no
-- other closing delimiter.
pub data Token : Type 0 where
  null : Token
  literal : Bool → Token
  number : Text → Token
  str : Text → Token
  open_object : Token
  open_array : Token
  close : Token

-- Why no token follows: the input ends, or it is no JSON from here on.
pub data Stop : Type 0 where
  eof : Stop
  broken : Text → Stop

-- A decoder: the tokens that it still returns, and what stops it after them.
pub record Decoder : Type 0 where
  pub tokens : List Token
  pub stop : Stop

-- The error of `Token` where no token is left.
abbrev pub stop_error : Stop → Text
stop_error eof = text "EOF"
stop_error (broken e) = e

-- What a scan returns: the tokens that it leaves, its error, or that the fuel was too little.
pub data Scan : Type 0 where
  scanned : List Token → Scan
  refused : Text → Scan
  spent : Scan

and_then : Scan → (List Token → Scan) → Scan
and_then (scanned rest) next = next rest
and_then (refused e) next = refused e
and_then spent next = spent

-- `fmt.Sprintf("%s[%d]", path, index)`.
abbrev pub at_index : Text → ℕ → Text
at_index path i = path ++ (text "[" ++ (decimal i ++ text "]"))

abbrev pub has_key : Text → List Text → Bool
has_key key keys = any (text_eq key) keys

module _ (quote : Text → Text) (stop : Stop) where
  -- `scanJSONValue`, and its loops over the fields of an object and the items of an array, up to the
  -- closing delimiter. Each call and each round costs a unit of fuel.
  unfoldable mutual
    unfolding and_then

    pub scan_value : ℕ → Text → List Token → Scan
    scan_value zero path ts = spent
    scan_value (suc f) path [] = refused (stop_error stop)
    scan_value (suc f) path (null ∷ ts) =
        refused (text "null value at " ++ (path ++ text " is not allowed"))
    scan_value (suc f) path (literal b ∷ ts) = scanned ts
    scan_value (suc f) path (number n ∷ ts) = scanned ts
    scan_value (suc f) path (str s ∷ ts) = scanned ts
    scan_value (suc f) path (open_object ∷ ts) = scan_fields f path [] ts
    scan_value (suc f) path (open_array ∷ ts) = scan_items f path 0 ts
    scan_value (suc f) path (close ∷ ts) = refused (text "unexpected JSON delimiter")

    pub scan_fields : ℕ → Text → List Text → List Token → Scan
    scan_fields zero path keys ts = spent
    scan_fields (suc f) path keys [] = refused (stop_error stop)
    scan_fields (suc f) path keys (close ∷ ts) = scanned ts
    scan_fields (suc f) path keys (str key ∷ ts) =
        let rest =
          and_then (scan_value f (path ++ (text "." ++ key)) ts)
            (λ us. scan_fields f path (key ∷ keys) us) in
        if has_key key keys
        then refused (text "duplicate field " ++ (quote key ++ (text " at " ++ path)))
        else rest
    scan_fields (suc f) path keys (t ∷ ts) = refused (text "invalid object key")

    pub scan_items : ℕ → Text → ℕ → List Token → Scan
    scan_items zero path i ts = spent
    scan_items (suc f) path i [] = refused (stop_error stop)
    scan_items (suc f) path i (close ∷ ts) = scanned ts
    scan_items (suc f) path i (t ∷ ts) =
        and_then (scan_value f (at_index path i) (t ∷ ts)) (λ us. scan_items f path (suc i) us)

-- The next value is complete: `depth` objects and arrays of it are open.
complete : ℕ → List Token → Bool
complete depth [] = false
complete depth (open_object ∷ ts) = complete (suc depth) ts
complete depth (open_array ∷ ts) = complete (suc depth) ts
complete zero (close ∷ ts) = false
complete zero (t ∷ ts) = true
complete (suc zero) (close ∷ ts) = true
complete (suc (suc depth)) (close ∷ ts) = complete (suc depth) ts
complete (suc depth) (t ∷ ts) = complete (suc depth) ts

-- The error of `Decode` in the middle of a value.
abbrev inside_error : Stop → Text
inside_error eof = text "unexpected EOF"
inside_error (broken e) = e

after_value : Stop → List Token → Option Text
after_value eof [] = none
after_value (broken e) [] = some (text "decode configuration: " ++ e)
after_value stop (t ∷ ts) =
    if complete 0 (t ∷ ts)
    then some (text "decode configuration: multiple JSON values")
    else some (text "decode configuration: " ++ inside_error stop)

-- `ensureEOF`.
unfoldable pub ensure_eof : Decoder → Option Text
unfolding after_value complete
ensure_eof decoder = after_value decoder.stop decoder.tokens

on_scan : Stop → Scan → Option Text
unfolding after_value
on_scan stop (scanned rest) = ensure_eof (record { tokens = rest; stop = stop })
on_scan stop (refused e) = some (text "decode configuration: " ++ e)
on_scan stop spent = some (text "out of fuel")

-- `rejectDuplicateKeys`; two units of fuel for each token are enough.
unfoldable pub reject_duplicate_keys : (Text → Text) → Decoder → Option Text
unfolding on_scan
reject_duplicate_keys quote decoder = on_scan decoder.stop (
    scan_value quote decoder.stop (suc (length decoder.tokens + length decoder.tokens)) (text "$")
      decoder.tokens)
