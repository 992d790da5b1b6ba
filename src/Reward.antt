-- ===== src/Reward.antt =====
-- src/tts/reward and src/tts/utils/logprob.py: how a summary is scored, by what a continuation loses
-- when its context is replaced by the summary, less a penalty for copying. Floating point is a
-- record of operations (Reward.Floats), and the server that scores a prompt is a parameter.
pub mod Floats
pub mod Logprob
pub mod Rescoring
pub mod Copying
pub mod Distortion
pub mod Turns
