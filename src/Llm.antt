-- ===== src/Llm.antt =====
-- internal/llm: the splitter of reasoning tags, the stream of a model's answer, and the prompt.
pub mod Splitter
pub mod Stream
pub mod Prompt
pub mod Tests
