-- ===== src/Errors.antt =====
-- The error values of the SDK: sdk/go/errors.go, and the sentinels of the packages that it joins.
use Prim.Native.Char.{code}
use resilix.Prelude.{
  ℕ, ◌+◌, ◌-◌, String, Bool, true, false, ◌&&◌, ◌||◌, List, [], ◌∷◌, ◌++◌, map, ◌==◌, leb,
  if◌then◌else◌,
}

-- An `error` that is not nil; nil is `none` of `Option Error`.
pub data Error : Type 0 where
  key_not_found : Error  -- contract.ErrKeyNotFound, which errors.go calls ErrKeyNotFound
  breaker_open : Error  -- breaker.ErrOpen
  client_closed : Error  -- ErrClientClosed
  backpressure : Error  -- ErrBackpressure
  invalid_configuration : Error  -- ErrInvalidConfiguration
  canceled : Error  -- context.Canceled
  deadline_exceeded : Error  -- context.DeadlineExceeded
  eof : Error  -- io.EOF
  no_script : Error  -- errNOSCRIPT of the mock backend
  redis_nil : Error  -- redis.Nil of the client library
  unsupported_command : Error  -- errUnsupportedMockCmd of the mock backend
  not_acquired : Error  -- lock.ErrNotAcquired
  not_owner : Error  -- lock.ErrNotOwner
  validation : String → String → Error  -- ValidationError: field, message
  operation : String → List String → Error → Error  -- OperationError: operation, keys, cause
  wrapped : Error → String → Error  -- fmt.Errorf("%w: …", err)
  net_error : String → Error  -- an error that implements net.Error, with its text
  other : String → Error  -- any other error, with its text

-- The results `(A, error)` of a Go function. On an error the callers of this code do not use the
-- value, so it is left out.
pub data Result {ℓ} (A : Type ℓ) : Type ℓ where
  ok : A → Result A
  err : Error → Result A

-- Which errors `errors.Is` finds in `e`, by following `Unwrap`.
unfoldable pub is_key_not_found : Error → Bool
is_key_not_found key_not_found = true
is_key_not_found (operation name keys cause) = is_key_not_found cause
is_key_not_found (wrapped cause text) = is_key_not_found cause
is_key_not_found _ = false

unfoldable pub is_redis_nil : Error → Bool
is_redis_nil redis_nil = true
is_redis_nil (operation name keys cause) = is_redis_nil cause
is_redis_nil (wrapped cause text) = is_redis_nil cause
is_redis_nil _ = false

unfoldable pub is_canceled : Error → Bool
is_canceled canceled = true
is_canceled (operation name keys cause) = is_canceled cause
is_canceled (wrapped cause text) = is_canceled cause
is_canceled _ = false

unfoldable pub is_deadline_exceeded : Error → Bool
is_deadline_exceeded deadline_exceeded = true
is_deadline_exceeded (operation name keys cause) = is_deadline_exceeded cause
is_deadline_exceeded (wrapped cause text) = is_deadline_exceeded cause
is_deadline_exceeded _ = false

unfoldable pub is_eof : Error → Bool
is_eof eof = true
is_eof (operation name keys cause) = is_eof cause
is_eof (wrapped cause text) = is_eof cause
is_eof _ = false

-- `errors.As(err, &netErr)`: context.DeadlineExceeded implements net.Error too.
unfoldable pub as_net_error : Error → Bool
as_net_error (net_error text) = true
as_net_error deadline_exceeded = true
as_net_error (operation name keys cause) = as_net_error cause
as_net_error (wrapped cause text) = as_net_error cause
as_net_error _ = false

-- `errors.As(err, &operationError)`.
unfoldable pub as_operation_error : Error → Bool
as_operation_error (operation name keys cause) = true
as_operation_error (wrapped cause text) = as_operation_error cause
as_operation_error _ = false

-- `wrapOperationError`, of an error that is not nil.
unfoldable pub wrap_operation_error : String → List String → Error → Error
unfolding as_operation_error
wrap_operation_error name keys e = if as_operation_error e then e else operation name keys e

-- A text as its code points.
abbrev pub Text : Type 0
Text = List ℕ

abbrev pub codes : String → Text
codes String.[] = []
codes (String.◌∷◌ c s) = code c ∷ codes s

-- `err.Error()`.
unfoldable pub message : Error → Text
message key_not_found = codes "resilix: key not found"
message breaker_open = codes "resilix: circuit breaker is open"
message client_closed = codes "resilix: client is closed"
message backpressure = codes "resilix: backpressure limit exceeded"
message invalid_configuration = codes "resilix: invalid configuration"
message canceled = codes "context canceled"
message deadline_exceeded = codes "context deadline exceeded"
message eof = codes "EOF"
message no_script = codes "resilix: NOSCRIPT"
message redis_nil = codes "redis: nil"
message unsupported_command = codes "resilix: unsupported pipeline command in mock"
message not_acquired = codes "resilix/lock: could not acquire lock"
message not_owner = codes "resilix/lock: token mismatch — not the lock owner"
message (validation field text) =
    codes "resilix: validation failed for " ++ (codes field ++ (codes ": " ++ codes text))
message (operation name keys cause) =
    codes "resilix: operation " ++ (codes name ++ (codes " failed: " ++ message cause))
message (wrapped cause text) = message cause ++ (codes ": " ++ codes text)
message (net_error text) = codes text
message (other text) = codes text

-- `strings.ToLower` as far as a search for a word of ASCII letters sees it: beside the capitals,
-- the Kelvin sign and the dotted capital I are what lowers to an ASCII letter.
unfoldable pub to_lower : ℕ → ℕ
to_lower c =
    if leb b'A' c && leb c b'Z'
    then c + 32
    else if c == 0x212A
    then b'k'
    else if c == 0x130
    then b'i'
    else c

pub has_prefix : Text → Text → Bool
has_prefix [] t = true
has_prefix (c ∷ s) [] = false
has_prefix (c ∷ s) (d ∷ t) = c == d && has_prefix s t

-- `strings.ToUpper`, as far as a comparison with a word of ASCII letters sees it: beside the small
-- letters, the dotless i and the long s are what goes to an ASCII letter.
unfoldable pub to_upper : ℕ → ℕ
to_upper c =
    if leb b'a' c && leb c b'z'
    then c - 32
    else if c == 0x131
    then b'I'
    else if c == 0x17F
    then b'S'
    else c

pub text_eq : Text → Text → Bool
text_eq [] [] = true
text_eq [] (d ∷ t) = false
text_eq (c ∷ s) [] = false
text_eq (c ∷ s) (d ∷ t) = c == d && text_eq s t

-- `strings.ToUpper(s) == word`, where the word has ASCII letters.
unfoldable pub is_word : String → String → Bool
unfolding to_upper text_eq
is_word word s = text_eq (map to_upper (codes s)) (codes word)

-- `strings.Contains(t, s)`.
unfoldable pub contains : Text → Text → Bool
unfolding has_prefix
contains s [] = has_prefix s []
contains s (c ∷ t) = has_prefix s (c ∷ t) || contains s t
