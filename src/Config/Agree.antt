-- ===== src/Config/Agree.antt =====
-- config/config.go: a configuration that can be saved is loaded as it was saved.
use llm_server_manager.Config.{Config}
