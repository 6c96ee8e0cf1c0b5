-- ===== src/Memory.antt =====
-- services/memory/context_manager.py: what a session remembers, and how it fits the model's context.
-- Redis, MongoDB, Chroma, the embedder, the reranker, the tokenizer and the model are parameters.
pub mod Lines
pub mod Compact
pub mod Context
pub mod Retrieve
mod Examples
