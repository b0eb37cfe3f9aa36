-- ===== src/WebServer/Status.antt =====
-- The enumerations of WebServer.hpp, uws_exports.h and uws that the server reads or returns.
use Prim.Native.Nat.{ℕ, bit_or}
use mathlib.Core.Bool.{Bool, cond}
use evo_runtime.Common.{◌==◌}

-- `opening` is the source's OPEN, a reserved word here.
pub data EventType : Type 0 where
  invalid opening message close listen shutdown : EventType
  http_start http_data http_end http_abort http_writable : EventType

-- `static_cast<int>(event.type)`
unfoldable pub event_code : EventType → ℕ
event_code invalid = 0
event_code opening = 1
event_code message = 2
event_code close = 3
event_code listen = 4
event_code shutdown = 5
event_code http_start = 6
event_code http_data = 7
event_code http_end = 8
event_code http_abort = 9
event_code http_writable = 10

pub data HttpSendStatus : Type 0 where
  none sent ended sent_and_ended : HttpSendStatus

unfoldable pub status_code : HttpSendStatus → ℕ
status_code none = 0
status_code sent = 1
status_code ended = 2
status_code sent_and_ended = 3

-- The enumerator with a given value; no other value than 0 to 3 is cast.
abbrev from_code : ℕ → HttpSendStatus
from_code n = cond (n == 0) none (cond (n == 1) sent (cond (n == 2) ended sent_and_ended))

-- `static_cast<HttpSendStatus>((first ? 1 : 0) | (second ? 2 : 0))`
unfoldable pub encode_result : Bool → Bool → HttpSendStatus
encode_result first second = from_code (bit_or (cond first 1 0) (cond second 2 0))

-- uWS::WebSocket::SendStatus
pub data SendStatus : Type 0 where
  backpressure success dropped : SendStatus

-- uWS::OpCode; `other` is any value with no name in `opCodeToString`.
pub data OpCode : Type 0 where
  text binary close ping pong : OpCode
  other : ℕ → OpCode

-- The member function of uWS::App that a route is registered with.
pub data RouteMethod : Type 0 where
  get post options delete patch put head any : RouteMethod
