-- ===== src/Lib.antt =====
-- The core of the allpix framework: configuration, messages, the event loop on several threads, the pixel
-- matrix of detectors, the clustering of pixel hits, and the reader of field maps.
--
-- The program reads a main file with sections, one for each module, and a file of detectors
-- (ConfigReader, Configuration, ConfigManager), to which the command line adds options (OptionParser).
-- Values are texts, which text.cpp and unit.cpp convert. The module manager creates the instances of each
-- module, which bind delegates to the messenger, and then runs every module on every event: an event is a
-- task of the thread pool, and what modules send each other within it goes through its local messenger.
-- Modules ask the model of a detector which pixels there are and which are neighbors; the module that fills
-- histograms of a detector groups hits into clusters with it. Field maps come from a program of their own,
-- which reads the grid and the values of a file.
--
-- Where each part stands, with the paths from the root of the repository:
--   Base       shared notation, byte strings, results for exceptions, ordered dictionaries, integers
--   Text       src/core/utils/text.cpp, text.tpp: trim, from_string, split
--   Units      src/core/utils/unit.cpp, unit.tpp: Units::get, convert, display; Real is its double
--   Config     src/core/config/Configuration.cpp: keys and markers; Config.Value is parse_value,
--              Config.Access the accessors of Configuration.tpp, Config.Paths those of paths
--   Config.Reader  src/core/config/ConfigReader.cpp: add and the look-ups; parseKeyValue is in
--              Config.Reader.Line
--   Manager    src/core/config/ConfigManager.cpp and src/core/module/ModuleIdentifier.hpp;
--              Manager.CommandLine is OptionParser.cpp
--   Messenger  src/core/messenger/Messenger.cpp and delegates.h: dispatch; Messenger.Registry and
--              Messenger.Fetch have the registration and, from Messenger.tpp, what modules fetch
--              from it; check_delegates of src/core/module/Module.cpp is in Messenger.Registry
--   ThreadPool src/core/module/ThreadPool.tpp: SafeQueue; ThreadPool.Events has the interleavings of
--              submission and workers that ModuleManager::run and ThreadPool::worker allow, and
--              ThreadPool.Loop those of the rounds of SafeQueue::complete
--   ThreadPool.Pool  src/core/module/ThreadPool.cpp: the count of tasks, exceptions and the end
--   EventLoop  src/core/module/ModuleManager.cpp: the function that run submits for each event
--   Loader     src/core/module/ModuleManager.cpp: the instances of a module and their priorities, and
--              the detectors of src/core/geometry/GeometryManager.cpp
--   Geometry   src/core/geometry/PixelDetectorModel.cpp and HexagonalPixelDetectorModel.cpp: the pixels
--              of a matrix, in Geometry.Rectangular and Geometry.Hexagonal
--   Clustering src/modules/DetectorHistogrammer: doClustering and Cluster
--   MeshConverter    tools/mesh_converter/parsers/DFISEParser.cpp: MeshConverter.Grid has read_meshes and
--              MeshConverter.Field read_fields, with MeshConverter.FieldPoints; Numbers, Lines and
--              Shapes are what they share,
--              and MeshConverter.Silvaco is SilvacoParser.cpp beside it
--
-- Names are those of the code in snake case. A function that throws has a Result, whose errors name the
-- exceptions. A state that a method changes is an argument and a part of the result. A std::map is a list
-- in the order of its keys; iterators and pointers are numbers. Tests in a module Tests run the code.
--
-- There are three uses of fuel. That of parse_value and split is taken from the length of the text: each
-- round of split and each level of parse_value below the first shortens it. The rounds of a cluster's loop
-- have one more than the hits that follow its first, since each but the last adds one of them. All other
-- recursion is structural.
--
-- Parameters are: the floating-point type, the streams that read a number or those of a line, the file
-- system, the library of modules, the neighbors in the clustering, and the random engine. Signals of hits
-- are integers in place of floating-point numbers. Not modelled are log output, times and histograms,
-- dynamic libraries, the creation of threads, positions on the pixel matrix, solids and coordinate
-- transformations of detectors, the interpolation of meshes, and the other modules, which rest on Geant4
-- and ROOT.
pub mod Base
pub mod Text
pub mod Units
pub mod Config
pub mod Manager
pub mod Messenger
pub mod ThreadPool
pub mod EventLoop
pub mod Loader
pub mod Geometry
pub mod Clustering
pub mod MeshConverter
