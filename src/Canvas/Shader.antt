-- ===== src/Canvas/Shader.antt =====
-- examples/hello-spanreed/client/src/solid.shader.ts: `class SolidShader`.
use spanreed_netcode_proxy.Prelude.{ℕ, true, false, Option, none, some, String}
use spanreed_netcode_proxy.Log.{LogCb}
use spanreed_netcode_proxy.Canvas.Gl.{
  ◌>>=◌, ◌>>◌, Action, Gl, Pointer, ask, bind_buffer, bind_vertex_array, call, create_vertex_array,
  draw_arrays_instanced, enable_vertex_attrib_array, float, make, or_fail, pure, uniform_2f,
  unsigned_byte, use_program, vertex_attrib_divisor, vertex_attrib_pointer,
}
use spanreed_netcode_proxy.Canvas.Program.{create_program}

abbrev vs_src : String
vs_src =
    "#version 300 es\nprecision mediump float;\n\nin vec2 vertexPosition;\nin vec2 shapeLocation;\nin float shapeRadius;\nin vec3 shapeColor;\n\nout vec3 fragmentColor;\n\nuniform vec2 canvasSize;\n\nvoid main() {\n  fragmentColor = shapeColor;\n\n  vec2 logicalPosition = vertexPosition * shapeRadius + shapeLocation;\n  gl_Position = vec4((logicalPosition / canvasSize) * 2. - 1., 0., 1.);\n}"

abbrev fs_src : String
fs_src =
    "#version 300 es\nprecision mediump float;\n\nin vec3 fragmentColor;\nout vec4 outColor;\n\nvoid main() {\n  outColor = vec4(fragmentColor, 1.);\n}"

pub record Attrib : Type 0 where
  pub vertex_position : Option ℕ
  pub shape_location : Option ℕ
  pub shape_radius : Option ℕ
  pub shape_color : Option ℕ

pub record Uniform : Type 0 where
  pub canvas_size : ℕ

pub record SolidShader : Type 0 where
  pub program : ℕ
  pub attribs : Attrib
  pub uniforms : Uniform

-- The formats of the four attributes; the three last ones share a stride of 16 bytes.
abbrev pub vertex_position_pointer : Pointer
vertex_position_pointer = record {
  components = 2;
  component_type = float;
  normalized = false;
  stride = 0;
  offset = 0;
}

abbrev pub shape_location_pointer : Pointer
shape_location_pointer = record {
  components = 2;
  component_type = float;
  normalized = false;
  stride = 16;
  offset = 0;
}

abbrev pub shape_radius_pointer : Pointer
shape_radius_pointer = record {
  components = 1;
  component_type = float;
  normalized = false;
  stride = 16;
  offset = 8;
}

abbrev pub shape_color_pointer : Pointer
shape_color_pointer = record {
  components = 3;
  component_type = unsigned_byte;
  normalized = true;
  stride = 16;
  offset = 12;
}

module _ (gl : Gl) where
  -- `SolidShader.Create`
  unfoldable pub create : LogCb → Action SolidShader
  create log = do
    program ← create_program gl log vs_src fs_src
    vertex_position ← ask (λ h. gl.attrib_location h program "vertexPosition")
    shape_location ← ask (λ h. gl.attrib_location h program "shapeLocation")
    shape_radius ← ask (λ h. gl.attrib_location h program "shapeRadius")
    shape_color ← ask (λ h. gl.attrib_location h program "shapeColor")
    found ← ask (λ h. gl.uniform_location h program "canvasSize")
    canvas_size ← or_fail log "SolidShader - failed to find CanvasSize uniform" found
    pure (record {
      program = program;
      attribs = record {
        vertex_position = vertex_position;
        shape_location = shape_location;
        shape_radius = shape_radius;
        shape_color = shape_color;
      };
      uniforms = record { canvas_size = canvas_size };
    })

  -- `SolidShader.createVao`
  unfoldable pub create_vao : SolidShader → (geo_buffer instance_buffer : ℕ) → LogCb → Action ℕ
  create_vao shader geo_buffer instance_buffer log = do
    made ← make create_vertex_array gl.new_vertex_array
    vao ← or_fail log "Failed to allocate VAO for SolidShader" made
    call (bind_vertex_array (some vao))
    call (enable_vertex_attrib_array shader.attribs.vertex_position)
    call (enable_vertex_attrib_array shader.attribs.shape_color)
    call (enable_vertex_attrib_array shader.attribs.shape_location)
    call (enable_vertex_attrib_array shader.attribs.shape_radius)
    call (bind_buffer (some geo_buffer))
    call (vertex_attrib_pointer shader.attribs.vertex_position vertex_position_pointer)
    call (bind_buffer (some instance_buffer))
    call (vertex_attrib_pointer shader.attribs.shape_location shape_location_pointer)
    call (vertex_attrib_pointer shader.attribs.shape_radius shape_radius_pointer)
    call (vertex_attrib_pointer shader.attribs.shape_color shape_color_pointer)
    call (vertex_attrib_divisor shader.attribs.shape_location 1)
    call (vertex_attrib_divisor shader.attribs.shape_radius 1)
    call (vertex_attrib_divisor shader.attribs.shape_color 1)
    call (bind_vertex_array none)
    pure vao

-- `SolidShader.draw`
unfoldable pub draw :
    SolidShader
    → (vao vertex_count instance_count canvas_width canvas_height : ℕ) → Action (Unit {0})
draw shader vao vertex_count instance_count canvas_width canvas_height = do
  call (use_program (some shader.program))
  call (bind_vertex_array (some vao))
  call (uniform_2f shader.uniforms.canvas_size canvas_width canvas_height)
  call (draw_arrays_instanced 0 vertex_count instance_count)
  call (bind_vertex_array none)
  call (use_program none)
