-- ===== src/Connections/Rows.antt =====
-- connections.py: every row that `aggregate` returns is the conversation of its own key.
use homelab_agent.Prelude.{◌≡◌, Option, List, ◌∷◌, keep_if}
use homelab_agent.Connections.Flow.{Flow, Index}
use homelab_agent.Connections.Aggregate.{FlowKey, flow_key_eq, Row}
use homelab_agent.Connections.Conversations.{has_key, IsConversation}

-- The row is the conversation of some key, of which there are flows.
pub Summarises : Option Index → List Flow → Row → Type 0
Summarises index flows row =
    (k : FlowKey) × (first : Flow) × (rest : List Flow) × (keep_if (has_key k) flows ≡ first ∷ rest)
    × IsConversation index k first (first ∷ rest) row
