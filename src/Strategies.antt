-- ===== src/Strategies.antt =====
-- The other strategies of src/tts/summarization: truncation, a generated summary, the rules of
-- CliffCompaction, a summary for each subtask, and the factory that picks one by name.
pub mod Truncation
pub mod Model
pub mod Cliff
pub mod Subtask
pub mod Thinking
pub mod Factory
pub mod Built
pub mod Ends
