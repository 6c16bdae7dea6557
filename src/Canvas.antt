-- ===== src/Canvas.antt =====
-- The demo canvas of the client: examples/hello-spanreed/client/src/{DemoCanvas.tsx,
-- DemoRenderer.ts, solid.shader.ts, glutils.ts, geomtry.ts, colors.ts}.
pub mod ArrayBuffer
pub mod Numbers
pub mod Geometry
pub mod Instances
pub mod Gl
pub mod Buffers
pub mod Program
pub mod Shader
pub mod Renderer
pub mod Frames
pub mod Colors
pub mod Component
