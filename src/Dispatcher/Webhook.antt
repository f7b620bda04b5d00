-- ===== src/Dispatcher/Webhook.antt =====
-- monitoring/alert_dispatcher.py, post_alert_delivery_webhook and delivery_backoff_seconds. The HTTP
-- client is not modelled: what it returns or raises is a value of `PostReply`.
use production_support_agent.Prelude.{
  ℕ, zero, suc, ◌-◌, ◌*◌, ◌/◌, ◌%◌, ◌^◌, min, String, Option, none, some, ◌&&◌, leb, ltb,
  if◌then◌else◌, nat_eq, ◌==◌, str_append,
}
use production_support_agent.Models.{DeliveryStatus, sent}

-- A response with its status code, httpx.TimeoutException, or another httpx.HTTPError by its class name.
pub data PostReply : Type 0 where
  responded : ℕ → PostReply
  timed_out : PostReply
  http_error : String → PostReply

-- f"HTTP_{response.status_code}": the decimal digits of a number, the last `fuel` of them at most.
abbrev digit : ℕ → String
digit n =
    if n == 0
    then "0"
    else if n == 1
    then "1"
    else if n == 2
    then "2"
    else if n == 3
    then "3"
    else if n == 4
    then "4"
    else if n == 5
    then "5"
    else if n == 6
    then "6"
    else if n == 7
    then "7"
    else if n == 8
    then "8"
    else "9"

pub decimal : ℕ → ℕ → String
decimal zero n = ""
decimal (suc fuel) n =
    let high = str_append (decimal fuel (n / 10)) (digit (n % 10)) in
    if ltb n 10 then digit n else high

pub http_error_code : ℕ → String
http_error_code status_code = str_append "HTTP_" (decimal (suc status_code) status_code)

-- What `post_alert_delivery_webhook` returns: the status, the response's status code and the error.
unfoldable pub delivery_result : PostReply → DeliveryStatus × Option ℕ × Option String
delivery_result (responded code) =
    if leb 200 code && ltb code 300
    then (sent, some code, none)
    else (DeliveryStatus.failed, some code, some (http_error_code code))
delivery_result timed_out = (DeliveryStatus.failed, none, some "TIMEOUT")
delivery_result (http_error name) = (DeliveryStatus.failed, none, some name)

unfoldable pub delivery_backoff_seconds : ℕ → ℕ → ℕ → ℕ
delivery_backoff_seconds attempt_count base_seconds max_seconds =
    if leb attempt_count 1
    then min base_seconds max_seconds
    else min (base_seconds * 2 ^ (attempt_count - 1)) max_seconds
