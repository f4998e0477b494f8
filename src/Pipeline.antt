-- ===== src/Pipeline.antt =====
-- src/execution_pipeline.rs and the executor interface of src/gpu_executor.rs: from the output of a
-- scheduling step to the tokens of a backend. The backend is a parameter.
pub mod Executor
pub mod Batches
pub mod Checks
pub mod Execution
pub mod Mock
pub mod Contract
pub mod Retries
pub mod BatchSteps
pub mod BatchLaws
pub mod BatchTokens
mod Examples
