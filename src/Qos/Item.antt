-- ===== src/Qos/Item.antt =====
-- The items of the priority queue (internal/wrphandlers/qos/priority_queue.go), their order and
-- tie breakers. Instants and durations are numbers of nanoseconds; the options refuse negative
-- durations. A quality of service is one of the protocol's 0 to 99, so a natural number.
use xmidt_agent.Base.{ℕ, Bool, true, false, not, some, [], length, ltb, ◌==◌, if◌then◌else◌, arith}
use xmidt_agent.Heap.Order.{IsStrictWeak}
use xmidt_agent.Wrp.{Message, blank}

-- The codes of a delivery response that the queue sets.
abbrev pub message_is_too_large : ℕ
message_is_too_large = 4

abbrev pub higher_priority_message_took_the_spot : ℕ
higher_priority_message_took_the_spot = 102

pub record Item : Type 0 where
  pub msg : Message
  pub expires : ℕ
  pub discard : Bool

-- item{}, whose message is never read
abbrev pub no_item : Item
no_item = record { msg = blank; expires = 0; discard = false }

abbrev pub payload_size : Item → ℕ
payload_size itm = length itm.msg.payload

-- dispose: the size of the payload that goes, and the item that is left
unfoldable pub dispose : Item → ℕ × Item
dispose itm = (
  payload_size itm,
  record itm {
    msg = record (itm.msg) {
      payload = [];
      request_delivery_response = some higher_priority_message_took_the_spot;
    };
    discard = true;
  },
)

abbrev pub TieBreaker : Type 0
TieBreaker = Item → Item → Bool

unfoldable pub priority_newest_msg : TieBreaker
priority_newest_msg i j = ltb j.expires i.expires

unfoldable pub priority_oldest_msg : TieBreaker
priority_oldest_msg i j = ltb i.expires j.expires

-- Less, on the items at the two positions
unfoldable pub item_less : TieBreaker → Item → Item → Bool
item_less tie_breaker i j =
    let iqos = i.msg.quality_of_service in
    let jqos = j.msg.quality_of_service in
    if not (iqos == jqos) then ltb jqos iqos else tie_breaker i j

pub newest-IsStrictWeak : IsStrictWeak (item_less priority_newest_msg)
unfolding item_less priority_newest_msg
newest-IsStrictWeak = record { asym = λ x y p. ground arith; negtrans = λ x y z p q. ground arith }

pub oldest-IsStrictWeak : IsStrictWeak (item_less priority_oldest_msg)
unfolding item_less priority_oldest_msg
oldest-IsStrictWeak = record { asym = λ x y p. ground arith; negtrans = λ x y z p q. ground arith }

-- The payload that a discarded item still holds.
abbrev pub discarded_size : Item → ℕ
discarded_size itm = if itm.discard then payload_size itm else 0
