-- ===== src/Razorpay/Client.antt =====
-- internal/razorpay/client.go: the settings of a client, its errors, and the line that it captures
-- of each response. A response body is a text. What the client calls of other packages is a
-- parameter: string replacement, JSON, base64, the transport, the wait, and the writer.
use rzp_rebound.Prelude.{
  ℕ, ◌*◌, String, ◌<>◌, Bool, false, ◌&&◌, ◌||◌, ◌==◌, if◌then◌else◌, Option, none, some, List, [],
  ◌∷◌, ltb, ℤ, pos, leb_ℤ, ltb_ℤ, decimal,
}
use rzp_rebound.Time.{Instant, Duration, second}
use rzp_rebound.Audit.{Services, marker, redact_value}
use rzp_rebound.Razorpay.{ApiError, CallError, api_error_text}

abbrev pub default_max_attempts : ℤ
default_max_attempts = pos 4

abbrev pub default_base_backoff : Duration
default_base_backoff = pos 250_000_000

abbrev pub default_max_backoff : Duration
default_max_backoff = pos (8 * second)

abbrev max_error_body_bytes : ℕ
max_error_body_bytes = 512

abbrev max_capture_body_bytes : ℕ
max_capture_body_bytes = 65536

-- The options that bear on an answer; the base URL and the transport are those of the wire.
pub record ClientOptions : Type 0 where
  pub key_id : String
  pub key_secret : String
  pub max_attempts : ℤ
  pub base_backoff : Duration
  pub max_backoff : Duration
  pub capturing : Bool

pub record Client : Type 0 where
  pub base_path : String
  pub key_id : String
  pub key_secret : String
  pub basic_token : String
  pub max_attempts : ℤ
  pub base_backoff : Duration
  pub max_backoff : Duration
  pub capturing : Bool

-- newClient, for a base URL that parses, with its path
unfoldable pub new_client_of : (String → String) → String → ClientOptions → Client
new_client_of base64 base_path opts =
    let base =
      if leb_ℤ opts.base_backoff (pos 0) then default_base_backoff else opts.base_backoff in
    let top = if leb_ℤ opts.max_backoff (pos 0) then default_max_backoff else opts.max_backoff in
    record {
      base_path = base_path;
      key_id = opts.key_id;
      key_secret = opts.key_secret;
      basic_token =
          if opts.key_id == "" && opts.key_secret == ""
          then ""
          else base64 (opts.key_id <> (":" <> opts.key_secret));
      max_attempts =
          if leb_ℤ opts.max_attempts (pos 0) then default_max_attempts else opts.max_attempts;
      base_backoff = base;
      max_backoff = if ltb_ℤ top base then base else top;
      capturing = opts.capturing;
    }

-- NewClient; `none` is ErrMissingCredentials.
unfoldable pub new_client : (String → String) → String → ClientOptions → Option Client
new_client base64 base_path opts =
    if opts.key_id == "" || opts.key_secret == ""
    then none
    else some (new_client_of base64 base_path opts)

pub record Sending : Type 0 where
  pub method : String
  pub path : String
  pub payload : Option String

-- What a round trip comes to: the text of its error, or a status with a body.
pub data Reply : Type 0 where
  no_answer : String → Reply
  answered : ℤ → String → Reply

pub data CaptureBody : Type 0 where
  document : String → CaptureBody
  quoted : String → CaptureBody

pub record RawResponse : Type 0 where
  pub captured_at : Instant
  pub method : String
  pub path : String
  pub status : ℤ
  pub body : CaptureBody

-- What a client has done: a request with its reply, a captured line, or a wait.
pub data Exchange : Type 0 where
  sent : Sending → Reply → Exchange
  captured : RawResponse → Exchange
  waited : Duration → Exchange

-- The packages that a client calls. What is answered may depend on all that was done before; the
-- error of a call is its text. `byte_len` is len of a text, and `valid_prefix s n` is
-- strings.ToValidUTF8(s[:n], "").
pub record Wire : Type 0 where
  pub services : Services
  pub replace_text : String → String → String → String
  pub valid_json : String → Bool
  pub byte_len : String → ℕ
  pub valid_prefix : String → ℕ → String
  pub envelope : String → String × String
  pub marshal_line : RawResponse → Option String
  pub round_trip : List Exchange → Sending → Reply
  pub write_line : List Exchange → RawResponse → Option String
  pub wait : List Exchange → Duration → Option String
  pub now : List Exchange → Instant

abbrev without : Wire → String → String → String
without w secret s = if secret == "" then s else w.replace_text s secret marker

-- c.Redact
unfoldable pub redact : Client → Wire → String → String
redact c w s = without w c.key_id (without w c.basic_token (without w c.key_secret s))

-- c.redactErr
unfoldable pub redact_err : Client → Wire → CallError → CallError
redact_err c w e = record e { text = redact c w e.text }

abbrev pub plain_error : String → CallError
plain_error text = record { exhausted = false; not_found = none; answer = none; text = text }

-- c.apiError; the envelope is the description and the reason of the body, empty where they are not.
unfoldable pub api_error : Client → Wire → Sending → ℤ → String → ApiError
api_error c w req status body =
    let scrubbed = redact_value w.services (redact c w body) in
    let envelope = w.envelope body in
    record {
      status_code = status;
      method = req.method;
      path = req.path;
      body =
          if ltb max_error_body_bytes (w.byte_len scrubbed)
          then w.valid_prefix scrubbed max_error_body_bytes <> "(truncated)"
          else scrubbed;
      description = redact_value w.services (redact c w envelope.0);
      reason = redact_value w.services (redact c w envelope.1);
    }

-- An APIError as an error.
unfoldable pub of_api : ApiError → CallError
unfolding api_error_text
of_api e = record { exhausted = false; not_found = none; answer = some e; text = api_error_text e }

-- The line that captureResponse writes.
unfoldable pub capture_line : Client → Wire → Instant → Sending → ℤ → String → RawResponse
unfolding decimal
capture_line c w now req status body =
    let scrubbed = redact_value w.services (redact c w body) in
    record {
      captured_at = now;
      method = req.method;
      path = c.base_path <> req.path;
      status = status;
      body =
          if ltb max_capture_body_bytes (w.byte_len scrubbed)
          then quoted (
              w.valid_prefix scrubbed max_capture_body_bytes
              <> ("(truncated from " <> (decimal (pos (w.byte_len scrubbed)) <> " bytes)")))
          else if w.valid_json body && w.valid_json scrubbed
          then document scrubbed
          else quoted scrubbed;
    }

abbrev about : String → Sending → String
about what req = "razorpay: " <> (what <> (" " <> (req.method <> (" " <> (req.path <> ": ")))))

-- c.captureResponse, with the line that went down
unfoldable pub capture_response :
    Client → Wire → List Exchange → Sending → ℤ → String → List Exchange × Option String
capture_response c w es req status body =
    let line = capture_line c w (w.now es) req status body in
    if c.capturing
    then elim (w.marshal_line line) [
      | some e ↦ ([], some (about "encode the capture of" req <> e))
      | none ↦ elim (w.write_line es line) [
        | some e ↦ ([], some (about "write the capture of" req <> e))
        | none ↦ (captured line ∷ [], none)
      ]
    ]
    else ([], none)
