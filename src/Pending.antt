-- ===== src/Pending.antt =====
-- tx/tx.hpp: a transaction that waits for a block.
use askcoin_core.Base.{ℕ}
use askcoin_core.Base.Text.{Str}

-- What the classes `Tx_Reg` to `Tx_Reward` add to `Tx`; `m_type` is 1 to 5, or another number. The text
-- of a topic or of a reply is a field of `m_doc`.
pub data Body : Type 0 where
  tx_reg : (register_name referrer_pubkey : Str) → ℕ → Body
  tx_send : Str → ℕ → Body
  tx_topic : ℕ → Str → Body
  tx_reply : (topic_key reply_to text : Str) → ℕ → Body
  tx_reward : (topic_key reply_to : Str) → ℕ → Body
  tx_other : ℕ → Body

pub record Tx : Type 0 where
  pub id : Str
  pub block_id : ℕ
  pub pubkey : Str
  pub body : Body
  pub broadcast_num : ℕ
