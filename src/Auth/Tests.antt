-- ===== src/Auth/Tests.antt =====
-- Concrete requests of a viewer, and the theorem at one of them.
use open_simple_agent.Auth.{agent_read, permission_for, is_granted}
use open_simple_agent.Base.Dict.{get}
use open_simple_agent.Base.Text.{starts_with}
use open_simple_agent.Auth.Viewers.{viewer, viewer_only_reads}
use open_simple_agent.Base.{refl, some, true, ◌≡◌}
use open_simple_agent.Base.Same.{nat_eq, option_eq, pair_eq, ◌==◌}
use open_simple_agent.Base.Text.{text, text_eq, text_same}

reads_agents : permission_for (text "/agents/7") (text "GET") ≡ some agent_read
unfolding permission_for starts_with text_same
reads_agents = refl

agents_granted : is_granted (λ s. s) viewer (text "agent:read") ≡ true
unfolding is_granted get text_same
agents_granted = refl

viewer_only_reads_example : (text "GET" == text "GET") ≡ true
viewer_only_reads_example =
    viewer_only_reads (text "/agents/7") (text "GET") {p = agent_read} reads_agents agents_granted
